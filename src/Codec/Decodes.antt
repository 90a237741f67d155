-- ===== src/Codec/Decodes.antt =====
-- Round trips: `Decodes read xs a` says that where the bytes `xs` stand next, `read` returns `a`
-- and leaves the cursor behind them. The rules follow the code from call to call.
use drey.Prelude.{
  ℕ, ◌+◌, ◌-◌, ◌%◌, ◌*◌, ◌^◌, ◌≤◌, ◌<◌, ◌≡◌, refl, sym, ap, ◌∙◌, Bool, true, List, [], ◌∷◌, ◌++◌,
  arith, length, take, drop, length-append, length-drop, drop-drop, take_append, drop_append, ltb,
  leb, ◌&&◌,
}
use mathlib.Core.List.{append_assoc, append-nil}
use mathlib.Core.Path.{subst, subst₂}
use drey.Int.{ℤ, to_bits, of_bits, fits_i64, of_bits-to_bits, to_bits-lt}
use drey.Ord.{Text}
use drey.Codec.Writer
use drey.Codec.Writer.{write_all}
use drey.Codec.Utf8.{valid_utf8}
use drey.Codec.Le.{to_le_bytes, from_le_bytes, length-to_le_bytes, from_le_bytes-to_le_bytes}
use drey.Error.{Error, Exec, ok, pure, require, codec, ◌>>=◌, ◌>>◌}
use drey.Codec.Reader
use drey.Codec.Reader.{Reader, take_bytes, checked_len, remaining, usize_mod}

-- A test of every item.
abbrev pub all_of {ℓ} : {A : Type ℓ} → (A → Bool) → List A → Bool
all_of good [] = true
all_of good (x ∷ xs) = good x && all_of good xs

-- The bytes that are left, within a buffer that memory can hold.
pub record At (r : Reader) (xs : List ℕ) : Type 0 where
  pub left : drop r.pos r.buf ≡ xs
  pub inside : r.pos ≤ length r.buf
  pub fits : length r.buf < 2 ^ 64

pub record Decodes {ℓ} {A : Type ℓ} (read : Exec Reader A) (xs : List ℕ) (a : A) : Type ℓ where
  pub run :
      (r : Reader) (ys : List ℕ)
      → At r (xs ++ ys)
      → (r' : Reader) × (read r ≡ (r', ok a)) × At r' ys

take_bytes_lem :
    (xs ys : List ℕ) (r : Reader)
    → At r (xs ++ ys)
    → (take_bytes (length xs) r ≡ (record r { pos = r.pos + length xs }, ok xs))
      × At (record r { pos = r.pos + length xs }) ys
unfolding take_bytes
take_bytes_lem xs ys r at =
    let size : r.pos + length xs + length ys ≡ length r.buf =
      omega (arith, ap length at.left, length-append xs ys, length-drop r.pos r.buf, at.inside) in
    let got : take (length xs) (drop r.pos r.buf) ≡ xs = rw at.left (take_append xs ys) in
    let rest : drop (r.pos + length xs) r.buf ≡ ys =
      sym (drop-drop r.pos (length xs) r.buf) ∙ ap (drop (length xs)) at.left ∙ drop_append xs ys in
    (ground (arith, at.fits), record { left = rest; inside = omega arith; fits = at.fits })

pub Decodes-take_bytes : (xs : List ℕ) → Decodes (take_bytes (length xs)) xs xs
Decodes-take_bytes xs = record {
  run = λ r ys at.
      let (e, at') = take_bytes_lem xs ys r at in (record r { pos = r.pos + length xs }, e, at');
}

pub Decodes-pure {ℓ} : {A : Type ℓ} (a : A) → Decodes (pure a) [] a
Decodes-pure a = record { run = λ r ys at. (r, refl, at) }

module _ {ℓ κ} {A : Type ℓ} {B : Type κ} where
  pub Decodes-bind :
      {m : Exec Reader A} (f : A → Exec Reader B) {xs ys : List ℕ} {a : A} {b : B}
      → Decodes m xs a
      → Decodes (f a) ys b
      → Decodes (m >>= f) (xs ++ ys) b
  Decodes-bind {m} f {xs} {ys} {a} {b} d k = record {
    run = λ r zs at.
        let (r', e, at') = d.run r (ys ++ zs) (rw (← append_assoc xs ys zs) at) in
        let (r'', e', at'') = k.run r' zs at' in (r'', rw e e', at'');
  }

  -- The last call that reads.
  pub Decodes-last :
      {m : Exec Reader A} (f : A → Exec Reader B) {xs : List ℕ} {a : A} {b : B}
      → Decodes m xs a
      → Decodes (f a) [] b
      → Decodes (m >>= f) xs b
  Decodes-last {m} f {xs} {a} {b} d k =
      subst (λ ys. Decodes (m >>= f) ys b) (append-nil xs) (Decodes-bind f d k)

  -- The last call of a method, whose result is wrapped.
  pub Decodes-map :
      {m : Exec Reader A} {xs : List ℕ} {a : A} (g : A → B)
      → Decodes m xs a
      → Decodes (m >>= λ x. pure (g x)) xs (g a)
  Decodes-map {m} {xs} {a} g d = record {
    run = λ r zs at. let (r', e, at') = d.run r zs at in (r', rw e, at');
  }

module _ {ℓ} {B : Type ℓ} where
  pub Decodes-require :
      {test : Bool} (e : Error) {k : Exec Reader B} {xs : List ℕ} {b : B}
      → test ≡ true
      → Decodes k xs b
      → Decodes (require test e >> k) xs b
  Decodes-require {test} e {k} {xs} {b} h d = record {
    run = λ r zs at. let (r', e', at') = d.run r zs at in (r', rw h e', at');
  }

  -- A claimed count passes the check where its elements do stand in the buffer.
  pub Decodes-checked_len :
      (n min_elem_bytes : ℕ) (f : ℕ → Exec Reader B) {xs : List ℕ} {b : B}
      → n * min_elem_bytes ≤ length xs
      → Decodes (f n) xs b
      → Decodes (checked_len n min_elem_bytes >>= f) xs b
  unfolding checked_len
  Decodes-checked_len n min_elem_bytes f {xs} {b} h d = record {
    run = λ r zs at.
        let (r', e', at') = d.run r zs at in
        let room : n * min_elem_bytes ≤ length r.buf - r.pos =
          omega
            (arith, ap length at.left, length-append xs zs, length-drop r.pos r.buf, at.inside) in
        let passes : (ltb (n * min_elem_bytes) usize_mod
              && leb (n * min_elem_bytes) (length r.buf - r.pos))
            ≡ true =
          ground (arith, at.fits) in
        (r', rw passes e', at');
  }

pub Decodes-u8 : (v : ℕ) → Decodes Reader.u8 (Writer.u8 v) v
unfolding Reader.u8 Writer.u8 from_le_bytes
Decodes-u8 v = rw v_eq at (Decodes-map from_le_bytes (Decodes-take_bytes (v ∷ [])))
  where
    v_eq : v + 256 * 0 ≡ v
    v_eq = omega arith

-- A number of `k` bytes, by way of its bytes.
Decodes-number :
    (k v : ℕ)
    → v < 256 ^ k
    → Decodes (take_bytes k >>= λ b. pure (from_le_bytes b)) (to_le_bytes k v) v
Decodes-number k v h =
    subst₂ (λ n w. Decodes (take_bytes n >>= λ b. pure (from_le_bytes b)) (to_le_bytes k v) w)
      (length-to_le_bytes k v) (from_le_bytes-to_le_bytes k v h)
      (Decodes-map from_le_bytes (Decodes-take_bytes (to_le_bytes k v)))

pub Decodes-u32 : (v : ℕ) → v < 2 ^ 32 → Decodes Reader.u32 (Writer.u32 v) v
unfolding Reader.u32 Writer.u32
Decodes-u32 v h = Decodes-number 4 v h

pub Decodes-u64 : (v : ℕ) → v < 2 ^ 64 → Decodes Reader.u64 (Writer.u64 v) v
unfolding Reader.u64 Writer.u64
Decodes-u64 v h = Decodes-number 8 v h

pub Decodes-f32 : (v : ℕ) → v < 2 ^ 32 → Decodes Reader.f32 (Writer.f32 v) v
unfolding Reader.f32 Writer.f32 Reader.u32
Decodes-f32 v h = Decodes-number 4 v h

pub Decodes-f64 : (v : ℕ) → v < 2 ^ 64 → Decodes Reader.f64 (Writer.f64 v) v
unfolding Reader.f64 Writer.f64 Reader.u64
Decodes-f64 v h = Decodes-number 8 v h

pub Decodes-i64 : (i : ℤ) → fits_i64 i ≡ true → Decodes Reader.i64 (Writer.i64 i) i
unfolding Reader.i64 Writer.i64
Decodes-i64 i h =
    subst₂
      (λ n w.
        Decodes (take_bytes n >>= λ b. pure (of_bits (from_le_bytes b))) (to_le_bytes 8 (to_bits i))
          w)
      (length-to_le_bytes 8 (to_bits i))
      (ap of_bits (from_le_bytes-to_le_bytes 8 (to_bits i) (to_bits-lt i h)) ∙ of_bits-to_bits i h)
      (Decodes-map (λ b. of_bits (from_le_bytes b))
        (Decodes-take_bytes (to_le_bytes 8 (to_bits i))))

pub Decodes-bytes : (b : List ℕ) → length b < 2 ^ 32 → Decodes Reader.bytes (Writer.bytes b) b
unfolding Reader.bytes Writer.bytes
Decodes-bytes b h =
    let e : length b % 2 ^ 32 ≡ length b = omega arith in
    rw e (Decodes-bind _ (Decodes-u32 (length b) h) (Decodes-take_bytes b))

pub Decodes-str :
    (s : Text) → valid_utf8 s ≡ true → length s < 2 ^ 32 → Decodes Reader.str (Writer.str s) s
unfolding Reader.str Writer.str
Decodes-str s valid h =
    Decodes-last _ (Decodes-bytes s h) (Decodes-require codec valid (Decodes-pure s))

-- A loop that reads what a loop wrote, item by item.
module _ {ℓ} {A : Type ℓ} {read : Exec Reader A} (write : A → List ℕ) (good : A → Bool)
    (item : (x : A) → good x ≡ true → Decodes read (write x) x) where
  pub Decodes-repeat :
      (xs : List A)
      → all_of good xs ≡ true
      → Decodes (Reader.repeat (length xs) read) (write_all write xs) xs
  unfolding Reader.repeat
  Decodes-repeat [] h = Decodes-pure []
  Decodes-repeat (x ∷ xs) h =
      Decodes-bind _ (item x (ground arith))
        (Decodes-map (◌∷◌ x) (Decodes-repeat xs (ground arith)))
