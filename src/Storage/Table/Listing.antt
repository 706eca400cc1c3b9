-- ===== src/Storage/Table/Listing.antt =====
-- What a listing becomes when a record is added under a new key.
use peat_gateway.Base.{
  ◌+◌, Text, Bytes, ◌==◌, ==_iff, starts_with, Bool, true, Option, List, [], ◌∷◌, arith, Result, ok,
  err, ◌≡◌, refl, some, none, and_then, ok_or, sym, subst, Bool-cases, inl, inr, length, filter,
  text_lt, corrupt_record,
}
use peat_gateway.Base.Entries.{Entries, lookup, put}
use peat_gateway.Storage.Redb.{Codec}
use peat_gateway.Storage.Table.{with_prefix, decode_all}

-- `l'` is `l` with `a` inserted somewhere.
pub data Inserted {A : Type 0} (a : A) : List A → List A → Type 0 where
  here : (l : List A) → Inserted a l (a ∷ l)
  later : (b : A) {l l' : List A} → Inserted a l l' → Inserted a (b ∷ l) (b ∷ l')

pub length-Inserted :
    {A : Type 0} {a : A} {l l' : List A} → Inserted a l l' → length l' ≡ length l + 1
length-Inserted (here l) = omega arith
length-Inserted (later b i) = omega (arith, length-Inserted i)

filter-Inserted :
    {A : Type 0} {a : A} {l l' : List A} (p : A → Bool)
    → p a ≡ true
    → Inserted a l l'
    → Inserted a (filter p l) (filter p l')
filter-Inserted {a = a} p h (here l) = rw h (here (filter p l))
filter-Inserted p h (later b ins) = elim (Bool-cases (p b)) [
  | inl hit ↦ rw hit (later b (filter-Inserted p h ins))
  | inr miss ↦ rw miss (filter-Inserted p h ins)
]

put-Inserted :
    (k : Text) (v : Bytes) (m : Entries) → lookup k m ≡ none → Inserted (k, v) m (put k v m)
unfolding lookup put
put-Inserted k v [] h = here []
put-Inserted k v ((i, w) ∷ m) h = elim (Bool-cases (i == k)) [
  | inl same ↦ absurd (ground (arith, ==_iff i k))
  | inr other ↦ rw other (elim (Bool-cases (text_lt k i)) [
    | inl before ↦ rw before (here ((i, w) ∷ m))
    | inr after ↦ rw after (later (i, w) (put-Inserted k v m (rw other at h)))
  ])
]

module _ {A : Type 0} (c : Codec A) where
  decode_all-cons :
      (k : Text) (v : Bytes) (m : Entries) {a : A} {l : List A}
      → c.from_slice v ≡ some a
      → decode_all c m ≡ ok l
      → decode_all c ((k, v) ∷ m) ≡ ok (a ∷ l)
  unfolding decode_all
  decode_all-cons k v m ea el = rw (ea, el)

  decode_all-cons_inv :
      (k : Text) (v : Bytes) (m : Entries) {l : List A}
      → decode_all c ((k, v) ∷ m) ≡ ok l
      → (b : A) × (l' : List A) × (c.from_slice v ≡ some b)
        × (decode_all c m ≡ ok l')
        × (l ≡ b ∷ l')
  unfolding decode_all
  decode_all-cons_inv k v m {l} h = go (c.from_slice v) (decode_all c m) refl refl h
    where
      go :
          (o : Option A) (q : Result (List A))
          → c.from_slice v ≡ o
          → decode_all c m ≡ q
          → and_then (ok_or o corrupt_record) (λ a. and_then q λ l'. ok (a ∷ l')) ≡ ok l
          → (b : A) × (l' : List A) × (c.from_slice v ≡ some b)
            × (decode_all c m ≡ ok l')
            × (l ≡ b ∷ l')
      go (some b) (ok l') ev eq e = (b, l', ev, eq, ground arith)
      go (some b) (err x) ev eq e = cc
      go none q ev eq e = cc

  decode_all-Inserted :
      {k : Text} {v : Bytes} {a : A} {m m' : Entries} {l : List A}
      → c.from_slice v ≡ some a
      → Inserted (k, v) m m'
      → decode_all c m ≡ ok l
      → (l' : List A) × (decode_all c m' ≡ ok l') × Inserted a l l'
  decode_all-Inserted {k} {v} {a} {l = l} ev (here m) el =
      (a ∷ l, decode_all-cons k v m ev el, here l)
  decode_all-Inserted {k} {v} {a} ev (later (i, w) {l = m} {l' = m'} ins) el =
      let (b, l₀, ew, e₀, e) = decode_all-cons_inv i w m el in
      let (l', e', ins') = decode_all-Inserted ev ins e₀ in
      (
        b ∷ l',
        decode_all-cons i w m' ew e',
        subst (λ x. Inserted a x (b ∷ l')) (sym e) (later b ins'),
      )

  -- Adding a record under a new key adds it to the listing, once, and keeps the rest.
  pub decode_all-put :
      (p k : Text) (a : A) (m : Entries) {l : List A}
      → starts_with k p ≡ true
      → lookup k m ≡ none
      → decode_all c (with_prefix p m) ≡ ok l
      → (l' : List A) × (decode_all c (with_prefix p (put k (c.to_vec a) m)) ≡ ok l')
        × Inserted a l l'
  decode_all-put p k a m hp hk hl =
      decode_all-Inserted (c.from_slice-to_vec a)
        (filter-Inserted (λ e. starts_with e.0 p) hp (put-Inserted k (c.to_vec a) m hk)) hl
