-- ===== src/Storage/Table/Views.antt =====
-- What the entries under one prefix become when a table is written.
use peat_gateway.Base.{
  Text, Bytes, ==_iff, starts_with, true, false, List, [], ◌∷◌, map, arith, ◌≡◌, refl, ◌∙◌, ap,
  Bool-cases, inl, inr,
}
use peat_gateway.Base.Entries.{Entries, lookup, put, erase}
use peat_gateway.Storage.Redb.{Redb}
use peat_gateway.Storage.Table.{with_prefix, remove_all, remove_prefix}

module _ (p k : Text) where
  pub with_prefix-erase : (m : Entries) → with_prefix p (erase k m) ≡ erase k (with_prefix p m)
  unfolding erase
  with_prefix-erase [] = refl
  with_prefix-erase ((i, w) ∷ m) = ground (arith, with_prefix-erase m)

  pub lookup-with_prefix :
      (m : Entries) → starts_with k p ≡ true → lookup k (with_prefix p m) ≡ lookup k m
  unfolding lookup
  lookup-with_prefix [] h = refl
  lookup-with_prefix ((i, w) ∷ m) h = ground (arith, ==_iff i k, lookup-with_prefix m)

  -- A key outside the prefix leaves the entries under it alone.
  module _ (outside : starts_with k p ≡ false) where
    pub with_prefix-put_outside :
        (v : Bytes) (m : Entries) → with_prefix p (put k v m) ≡ with_prefix p m
    unfolding put
    with_prefix-put_outside v [] = ground arith
    with_prefix-put_outside v ((i, w) ∷ m) = ground (arith, ==_iff i k, with_prefix-put_outside v m)

    pub with_prefix-erase_outside : (m : Entries) → with_prefix p (erase k m) ≡ with_prefix p m
    unfolding erase
    with_prefix-erase_outside [] = refl
    with_prefix-erase_outside ((i, w) ∷ m) = ground (arith, ==_iff i k, with_prefix-erase_outside m)

-- Deleting several keys.
erase_all : List Text → Entries → Entries
erase_all [] m = m
erase_all (k ∷ ks) m = erase_all ks (erase k m)

abbrev keys : Entries → List Text
keys = map λ e. e.0

erase_comm : (j k : Text) (m : Entries) → erase j (erase k m) ≡ erase k (erase j m)
unfolding erase
erase_comm j k [] = refl
erase_comm j k ((i, w) ∷ m) = ground (arith, erase_comm j k m)

erase_all-erase :
    (ks : List Text) (k : Text) (m : Entries) → erase_all ks (erase k m) ≡ erase k (erase_all ks m)
unfolding erase_all
erase_all-erase [] k m = refl
erase_all-erase (j ∷ ks) k m = rw (erase_comm j k m) (erase_all-erase ks k (erase j m))

erase-cons_self : (k : Text) (w : Bytes) (m : Entries) → erase k ((k, w) ∷ m) ≡ erase k m
unfolding erase
erase-cons_self k w m = ground (arith, ==_iff k k)

erase-nil : (k : Text) → erase k [] ≡ []
unfolding erase
erase-nil k = refl

erase_all-keys : (m : Entries) → erase_all (keys m) m ≡ []
unfolding erase_all
erase_all-keys [] = refl
erase_all-keys ((k, w) ∷ m) =
    ap (erase_all (keys m)) (erase-cons_self k w m)
    ∙ erase_all-erase (keys m) k m
    ∙ ap (erase k) (erase_all-keys m)
    ∙ erase-nil k

with_prefix-erase_all :
    (p : Text) (ks : List Text) (m : Entries)
    → with_prefix p (erase_all ks m) ≡ erase_all ks (with_prefix p m)
unfolding erase_all
with_prefix-erase_all p [] m = refl
with_prefix-erase_all p (k ∷ ks) m =
    with_prefix-erase_all p ks (erase k m) ∙ ap (erase_all ks) (with_prefix-erase p k m)

-- The keys under `p` are not under `q`.
abbrev pub Disjoint : Text → Text → Type 0
Disjoint p q = (k : Text) → starts_with k p ≡ true → starts_with k q ≡ false

with_prefix-erase_keys :
    (p q : Text)
    → Disjoint p q
    → (l m : Entries) → with_prefix q (erase_all (keys (with_prefix p l)) m) ≡ with_prefix q m
unfolding erase_all
with_prefix-erase_keys p q d [] m = refl
with_prefix-erase_keys p q d ((k, w) ∷ l) m = elim (Bool-cases (starts_with k p)) [
  | inl hit ↦
      rw hit
        (with_prefix-erase_keys p q d l (erase k m) ∙ with_prefix-erase_outside q k (d k hit) m)
  | inr miss ↦ rw miss (with_prefix-erase_keys p q d l m)
]

module _ {T : Type 0} ⦃r : Redb T⦄ where
  iter-remove_all : (ks : List Text) (t : T) → r.iter (remove_all ks t) ≡ erase_all ks (r.iter t)
  unfolding remove_all erase_all
  iter-remove_all [] t = refl
  iter-remove_all (k ∷ ks) t =
      iter-remove_all ks (r.remove t k).1 ∙ ap (erase_all ks) (r.iter-remove t k)

  -- `remove_prefix` clears the entries under its prefix, and no others.
  pub with_prefix-remove_prefix :
      (p : Text) (t : T) → with_prefix p (r.iter (remove_prefix p t)) ≡ []
  unfolding remove_prefix
  with_prefix-remove_prefix p t =
      ap (with_prefix p) (iter-remove_all _ t)
      ∙ with_prefix-erase_all p _ (r.iter t)
      ∙ erase_all-keys (with_prefix p (r.iter t))

  pub with_prefix-remove_prefix_outside :
      (p q : Text) (t : T)
      → Disjoint p q
      → with_prefix q (r.iter (remove_prefix p t)) ≡ with_prefix q (r.iter t)
  unfolding remove_prefix
  with_prefix-remove_prefix_outside p q t d =
      ap (with_prefix q) (iter-remove_all _ t) ∙ with_prefix-erase_keys p q d (r.iter t) (r.iter t)
