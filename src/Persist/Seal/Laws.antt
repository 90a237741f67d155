-- ===== src/Persist/Seal/Laws.antt =====
-- What the seal of drey/src/persist/seal.rs promises: it is read back as it was written, and it accepts
-- the acknowledged bytes and no others, up to a collision of the digest.
use drey.Prelude.{
  ℕ, ◌^◌, ◌≤◌, ◌<◌, ◌≡◌, refl, sym, ap, ◌∙◌, true, false, none, some, List, ◌++◌, ltb, leb, length,
  length-append, take, drop, take_append, drop_append, take_all, arith, Bool-cases, inl, inr,
}
use drey.Error.{ok, err, codec, generation_mismatch}
use drey.Ord.{◌=?◌, text_ord, text_lawful, =?_refl, =?_iff}
use drey.Codec.Writer
use drey.Codec.Le.{to_le_bytes, from_le_bytes, from_le_bytes-to_le_bytes}
use drey.Persist.Format.{format_version, wal_header_len}
use drey.Persist.Seal.{
  Seal, seal_magic, seal_body, seal_bytes, seal_valid, parse, read, version_of_log,
  reject_newer_epoch, verify, seal_refuses,
}

module _ (digest : List ℕ → List ℕ) (sized : (xs : List ℕ) → length (digest xs) ≡ 32)
    (epoch len : ℕ) (hash : List ℕ) (hash_sized : length hash ≡ 32) where
  length-seal_body : length (seal_body digest epoch len hash) ≡ 56
  unfolding seal_body Writer.u32 Writer.u64 to_le_bytes
  length-seal_body = omega (arith, hash_sized)

  abbrev body : List ℕ
  body = seal_body digest epoch len hash

  abbrev sealed : List ℕ
  sealed = body ++ digest body

  length-sealed : length sealed ≡ 88
  length-sealed = omega (arith, length-append body (digest body), length-seal_body, sized body)

  take-sealed : take 56 sealed ≡ body
  take-sealed = ap (λ n. take n sealed) (sym length-seal_body) ∙ take_append body (digest body)

  drop-sealed : drop 56 sealed ≡ digest body
  drop-sealed = ap (λ n. drop n sealed) (sym length-seal_body) ∙ drop_append body (digest body)

  magic-sealed : take 4 sealed ≡ seal_magic
  unfolding seal_body
  magic-sealed = refl

  version-sealed : take 4 (drop 4 sealed) ≡ Writer.u32 format_version
  unfolding seal_body Writer.u32 to_le_bytes
  version-sealed = refl

  epoch-sealed : epoch < 256 ^ 8 → from_le_bytes (take 8 (drop 8 sealed)) ≡ epoch
  unfolding seal_body Writer.u32 Writer.u64 to_le_bytes
  epoch-sealed h = from_le_bytes-to_le_bytes 8 epoch h

  len-sealed : len < 256 ^ 8 → from_le_bytes (take 8 (drop 16 sealed)) ≡ len
  unfolding seal_body Writer.u32 Writer.u64 to_le_bytes
  len-sealed h = from_le_bytes-to_le_bytes 8 len h

  hash-sealed : take 32 (drop 24 sealed) ≡ hash
  unfolding seal_body Writer.u32 Writer.u64 to_le_bytes
  hash-sealed =
      ap (λ n. take n (hash ++ digest body)) (sym hash_sized) ∙ take_append hash (digest body)

  sealed-valid : seal_valid digest sealed ≡ true
  sealed-valid =
      rw
        (
          length-sealed,
          magic-sealed,
          version-sealed,
          take-sealed,
          drop-sealed,
          =?_refl seal_magic,
          =?_refl (Writer.u32 format_version),
          =?_refl (digest body),
        )
        refl

  parse-seal_bytes :
      epoch < 256 ^ 8
      → len < 256 ^ 8
      → parse digest (seal_bytes digest epoch len hash)
        ≡ ok (record { epoch = epoch; len = len; hash = hash })
  unfolding parse seal_bytes
  parse-seal_bytes h k = rw (sealed-valid, epoch-sealed h, len-sealed k, hash-sealed) refl

  -- With a digest of 32 bytes, an epoch and a length below 2^64, and a log that names no other
  -- version, reading the bytes that `write` writes returns the epoch, the length and the hash.
  pub read-seal_bytes :
      (wal_header : List ℕ)
      → version_of_log wal_header ≡ ok tt
      → epoch < 256 ^ 8
      → len < 256 ^ 8
      → read digest (some (seal_bytes digest epoch len hash)) wal_header
        ≡ ok (record { epoch = epoch; len = len; hash = hash })
  unfolding read
  read-seal_bytes wal_header v h k =
      let short : length (seal_bytes digest epoch len hash) ≤ 89 =
        unfold seal_bytes in omega (arith, length-sealed) in
      rw (v, take_all 89 (seal_bytes digest epoch len hash) short) (parse-seal_bytes h k)

module _ (digest : List ℕ → List ℕ) where
  pub record Accepted (seal : Seal) (wal : List ℕ) (snapshot_epoch n : ℕ) : Type 0 where
    pub epoch_is : seal.epoch ≡ snapshot_epoch
    pub len_is : seal.len ≡ n
    pub long : wal_header_len ≤ n
    pub inside : n ≤ length wal
    pub same : digest (take n wal) ≡ seal.hash

  -- Where `verify` accepts a length of the log, the epochs agree, the length is that of the seal,
  -- it covers the header and lies within the log, and the digest of the log up to there is the
  -- sealed one.
  pub verify-Accepted :
      (seal : Seal) (wal : List ℕ) (snapshot_epoch n : ℕ)
      → verify digest seal wal snapshot_epoch ≡ ok (some n)
      → Accepted seal wal snapshot_epoch n
  unfolding verify reject_newer_epoch
  verify-Accepted seal wal snapshot_epoch n h =
      let call = verify digest seal wal snapshot_epoch in
      let newer = generation_mismatch seal.epoch snapshot_epoch in
      elim (Bool-cases (leb seal.epoch snapshot_epoch)) [
        | inr later ↦
            let out : call ≡ err newer = rw later refl in absurd (ground (arith, sym out ∙ h))
        | inl held ↦ elim (Bool-cases (ltb seal.epoch snapshot_epoch)) [
          | inl older ↦
              let out : call ≡ ok none = rw (held, older) refl in
              absurd (ground (arith, sym out ∙ h))
          | inr same_epoch ↦ elim (Bool-cases (seal_refuses digest seal wal)) [
            | inl bad ↦
                let out : call ≡ err codec = rw (held, same_epoch, bad) refl in
                absurd (ground (arith, sym out ∙ h))
            | inr fine ↦
                let out : call ≡ ok (some seal.len) = rw (held, same_epoch, fine) refl in
                let size : seal.len ≡ n = ground (arith, sym out ∙ h) in
                let equal : (digest (take seal.len wal) =? seal.hash) ≡ true =
                  ground (arith, fine) in
                record {
                  epoch_is = ground (arith, held, same_epoch);
                  len_is = size;
                  long = ground (arith, fine, size);
                  inside = ground (arith, fine, size);
                  same =
                      ap (λ k. digest (take k wal)) (sym size)
                      ∙ (=?_iff (digest (take seal.len wal)) seal.hash).0 equal;
                }
          ]
        ]
      ]

  -- The seal of a log that is at least as long as the header accepts it at its full length,
  -- whatever was written behind it since.
  pub verify-sealed :
      (epoch : ℕ) (wal rest : List ℕ)
      → wal_header_len ≤ length wal
      → verify digest
          (record { epoch = epoch; len = length wal; hash = digest wal })
          (wal ++ rest)
          epoch
        ≡ ok (some (length wal))
  unfolding verify reject_newer_epoch
  verify-sealed epoch wal rest h =
      let held : leb epoch epoch ≡ true = ground arith in
      let same_epoch : ltb epoch epoch ≡ false = ground arith in
      let long : ltb (length wal) wal_header_len ≡ false = ground arith in
      let inside : ltb (length (wal ++ rest)) (length wal) ≡ false =
        ground (arith, length-append wal rest) in
      rw (held, same_epoch, long, inside, take_append wal rest, =?_refl (digest wal)) refl
