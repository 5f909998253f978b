-- ===== src/Stream/Read.antt =====
-- StreamDataReader of utils/stream_serialization.go over a file: the parts in which the file is
-- delivered do not matter.
use mathlib.Core.Option.{some-ne-none, none-ne-some}
use mathlib.Core.List.{append_assoc, head-eq_of_cons-eq, tail-eq_of_cons-eq}
use native.Mathlib.Decide.{dec_lt}
use native.Mathlib.Nat.{pow-suc}
use aresdb.Prelude.{
  ℕ, zero, suc, ◌+◌, ◌-◌, ◌*◌, ◌/◌, ◌%◌, ◌^◌, ◌<◌, ◌≤◌, ◌≡◌, refl, sym, ap, ◌∙◌, false, Option,
  none, some, List, [], ◌∷◌, ◌++◌, arith, ◌==◌, ==_iff, length, length-append,
}
use aresdb.Stream.{
  FileSource, IoError, eof, other, end_of_file, ok, err, StreamDataReader, fill, checked, read,
  le_bytes,
}
use aresdb.Murmur.{load}

-- Two splits of one list at one place are the same.
pub split_unique {ℓ} :
    {A : Type ℓ} (xs ys us vs : List A)
    → length xs ≡ length us
    → xs ++ ys ≡ us ++ vs
    → (xs ≡ us) × (ys ≡ vs)
split_unique [] ys [] vs h e = (refl, e)
split_unique [] ys (u ∷ us) vs h e = absurd (omega arith)
split_unique (x ∷ xs) ys [] vs h e = absurd (omega arith)
split_unique (x ∷ xs) ys (u ∷ us) vs h e =
    let rest = split_unique xs ys us vs (omega arith) (tail-eq_of_cons-eq e) in
    (rw (head-eq_of_cons-eq e, rest.0), rest.1)

length_zero {ℓ} : {A : Type ℓ} (xs : List A) → length xs ≡ 0 → xs ≡ []
length_zero [] h = refl
length_zero (x ∷ xs) h = absurd (omega arith)

smaller : (v p : ℕ) → v < p * 256 → v / 256 < p
smaller v p h = omega arith

module _ {R : Type 0} (source : FileSource R) where
  -- The loop reads all the bytes that are asked for, if the file has them.
  record Fills (n : ℕ) (r : R) (x : (List ℕ × Option IoError) × R) : Type 0 where
    no_error : x.0.1 ≡ none
    count : length x.0.0 ≡ n
    split : source.left r ≡ x.0.0 ++ source.left x.1

  fill-Fills :
      (fuel n : ℕ) (r : R)
      → n ≤ fuel
      → n ≤ length (source.left r)
      → Fills n r (fill source fuel n r)
  unfolding fill
  fill-Fills zero zero r h k = record { no_error = refl; count = refl; split = refl }
  fill-Fills zero (suc n) r h k = absurd (omega arith)
  fill-Fills (suc fuel) zero r h k = record { no_error = refl; count = refl; split = refl }
  fill-Fills (suc fuel) (suc n) r h k =
      let x = source.next (suc n) r in
      let d = source.delivers (suc n) r (omega arith) (omega arith) in
      let total = ap length d.3 ∙ length-append x.0.0 (source.left x.1) in
      let ih = fill-Fills fuel (suc n - length x.0.0) x.1 (omega arith) (omega arith) in
      let some_bytes : (length x.0.0 == 0) ≡ false = ground arith in
      rw (d.0, some_bytes, fill)
        (record {
          no_error = ih.no_error;
          count = length-append x.0.0 _ ∙ omega arith;
          split = d.3 ∙ ap (λ (bs : List ℕ). x.0.0 ++ bs) ih.split ∙ sym (append_assoc x.0.0 _ _);
        })

  -- The loop meets the end of the file, if the file has fewer bytes.
  fill-short :
      (fuel n : ℕ) (r : R)
      → n ≤ fuel
      → length (source.left r) < n
      → (fill source fuel n r).0.1 ≡ some eof
  unfolding fill
  fill-short zero n r h k = absurd (omega arith)
  fill-short (suc fuel) zero r h k = absurd (omega arith)
  fill-short (suc fuel) (suc n) r h k = elim (dec_lt 0 (length (source.left r))) [
    | no none_left ↦
        let e = source.at_end (suc n) r (length_zero (source.left r) (omega arith)) in rw (e, fill)
    | yes some_left ↦
        let x = source.next (suc n) r in
        let d = source.delivers (suc n) r (omega arith) some_left in
        let total = ap length d.3 ∙ length-append x.0.0 (source.left x.1) in
        let ih = fill-short fuel (suc n - length x.0.0) x.1 (omega arith) (omega arith) in
        let some_bytes : (length x.0.0 == 0) ≡ false = ground arith in rw (d.0, some_bytes, fill) ih
  ]

  checked-ok :
      (n b : ℕ) (x : (List ℕ × Option IoError) × R)
      → x.0.1 ≡ none
      → length x.0.0 ≡ n
      → checked source n b x ≡ ok (x.0.0, record { reader = x.1; bytes_read = (b + n) % 2 ^ 32 })
  unfolding checked
  checked-ok n b ((bs, none), r) h c = rw ((==_iff _ _).1 c)
  checked-ok n b ((bs, some e), r) h c = absurd (some-ne-none _ h)

  checked-eof :
      (n b : ℕ) (x : (List ℕ × Option IoError) × R)
      → x.0.1 ≡ some eof
      → checked source n b x ≡ err end_of_file
  unfolding checked
  checked-eof n b ((bs, none), r) h = absurd (none-ne-some _ h)
  checked-eof n b ((bs, some eof), r) h = refl
  checked-eof n b ((bs, some other), r) h = cc

  -- Read of `n` bytes from a file that has `xs`, of that length, and then `rest` left: it returns
  -- `xs`, leaves `rest` and counts the bytes, however the file delivers them; and if fewer are left
  -- it fails with io.EOF.
  pub read-exact :
      (n : ℕ) (s : StreamDataReader R)
      → ((xs rest : List ℕ)
          → source.left s.reader ≡ xs ++ rest
          → length xs ≡ n
          → (s' : StreamDataReader R) × (read source n s ≡ ok (xs, s'))
            × (source.left s'.reader ≡ rest)
            × (s'.bytes_read ≡ (s.bytes_read + n) % 2 ^ 32))
        × (length (source.left s.reader) < n → read source n s ≡ err end_of_file)
  unfolding read checked
  read-exact n s = (
    λ xs rest e c.
        let x = fill source n n s.reader in
        let f =
          fill-Fills n n s.reader (omega arith)
            (omega (arith, ap length e, length-append xs rest, c)) in
        let same =
          split_unique x.0.0 (source.left x.1) xs rest (f.count ∙ sym c) (sym f.split ∙ e) in
        (
          record { reader = x.1; bytes_read = (s.bytes_read + n) % 2 ^ 32 },
          checked-ok n s.bytes_read x f.no_error f.count
              ∙ ap
                  (λ (bs : List ℕ).
                    ok (bs, record { reader = x.1; bytes_read = (s.bytes_read + n) % 2 ^ 32 }))
                  same.0,
          same.1,
          refl,
        ),
    λ short.
        checked-eof n s.bytes_read (fill source n n s.reader)
          (fill-short n n s.reader (omega arith) short),
  )

-- The bytes of an integer, read back.
pub load-le_bytes : (n v : ℕ) (rest : List ℕ) → v < 256 ^ n → load n (le_bytes n v ++ rest) ≡ v
unfolding load le_bytes
load-le_bytes zero v rest h = omega arith
load-le_bytes (suc n) v rest h =
    omega (arith, load-le_bytes n (v / 256) rest (smaller v (256 ^ n) (rw (pow-suc 256 n) at h)))
