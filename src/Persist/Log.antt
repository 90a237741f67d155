-- ===== src/Persist/Log.antt =====
-- `WalPersistence` of drey/src/persist/mod.rs as far as mutations and commits meet it: the buffer of
-- encoded records, the flag that refuses all work after a failed durable operation, the epoch and
-- the length of the log. The directory, the file, the lock and the running hash are left out.
use drey.Prelude.{ℕ, Bool, true, false, not, List, [], ◌∷◌, ◌++◌}
use drey.Error.{Exec, Result, guard, storage, lift, gets, modify, ◌>>=◌, ◌>>◌}
use drey.Mutation.{Mutation}
use drey.Codec.Writer
use drey.Persist.MutationCodec.{write_mutation}

pub record WalPersistence : Type 0 where
  pub epoch : ℕ
  pub pending : List (List ℕ)
  pub poisoned : Bool
  pub wal_len : ℕ

-- `TAG_MUTATION`.
abbrev pub tag_mutation : ℕ
tag_mutation = 1

-- `ensure_healthy`, which is `preflight`.
unfoldable pub preflight : WalPersistence → Result (Unit {0})
preflight p = guard (not p.poisoned) storage

-- The payload that `append` encodes.
unfoldable pub payload : Mutation → List ℕ
payload m = Writer.u8 tag_mutation ++ write_mutation m

-- `dirty`: records stand in the buffer.
unfoldable pub dirty : WalPersistence → Bool
dirty p = elim p.pending [ [] ↦ false | _ ∷ _ ↦ true ]

-- `append`.
unfoldable pub append : Mutation → Exec WalPersistence (Unit {0})
unfolding preflight payload
append m = do
  p ← gets (λ p. p)
  lift (preflight p)
  modify (λ p. record p { pending = p.pending ++ payload m ∷ [] })
