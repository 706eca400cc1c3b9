-- ===== src/Storage/Postgres/Columns.antt =====
-- The keys of the redb tables, and the columns that they are made of.
use peat_gateway.Base.{
  inr, inl, Bool-cases, subst, Text, ◌==◌, ==_iff, ◌&&◌, true, List, [], ◌∷◌, ◌++◌, ◌≡◌, ◌↔◌, refl,
  ap₂, sym, arith,
}
use peat_gateway.Storage.Keys.Prefixes.{NulFree, key-injective}
use peat_gateway.Storage.Sql.{same_columns}

-- The key in a redb table.
unfoldable pub joined : Text → List Text → Text
joined o [] = o
joined o (c ∷ cs) = o ++ (0 ∷ joined c cs)

-- A text column of PostgreSQL holds no zero byte.
abbrev pub NulFreeColumns : Text → List Text → Type 0
NulFreeColumns o [] = NulFree o
NulFreeColumns o (c ∷ cs) = NulFree o × NulFreeColumns c cs

NulFree-no_zero : (o s : Text) → NulFree (o ++ (0 ∷ s)) → ⊥
NulFree-no_zero [] s free = free.0 refl
NulFree-no_zero (c ∷ o) s free = NulFree-no_zero o s free.1

joined-injective :
    (o p : Text) (cs ds : List Text)
    → NulFreeColumns o cs
    → NulFreeColumns p ds
    → joined o cs ≡ joined p ds
    → (o ≡ p) × (cs ≡ ds)
unfolding joined
joined-injective o p [] [] fo fp q = (q, refl)
joined-injective o p [] (d ∷ ds) fo fp q =
    absurd (NulFree-no_zero p (joined d ds) (subst NulFree q fo))
joined-injective o p (c ∷ cs) [] fo fp q =
    absurd (NulFree-no_zero o (joined c cs) (subst NulFree (sym q) fp))
joined-injective o p (c ∷ cs) (d ∷ ds) fo fp q =
    let outer = key-injective o p (joined c cs) (joined d ds) fo.0 fp.0 q in
    let inner = joined-injective c d cs ds fo.1 fp.1 outer.1 in (outer.0, ap₂ ◌∷◌ inner.0 inner.1)

pub same_columns_iff : (cs ds : List Text) → (same_columns cs ds ≡ true) ↔ (cs ≡ ds)
unfolding same_columns
same_columns_iff [] [] = (λ h. refl, λ h. refl)
same_columns_iff [] (d ∷ ds) = (λ h. absurd cc, λ h. absurd cc)
same_columns_iff (c ∷ cs) [] = (λ h. absurd cc, λ h. absurd cc)
same_columns_iff (c ∷ cs) (d ∷ ds) = ground (arith, ==_iff c d, same_columns_iff cs ds)

-- Two keys are equal exactly if their columns are.
pub ==-joined :
    (o p : Text) (cs ds : List Text)
    → NulFreeColumns o cs
    → NulFreeColumns p ds
    → (joined o cs == joined p ds) ≡ (o == p && same_columns cs ds)
==-joined o p cs ds fo fp = elim (Bool-cases (o == p && same_columns cs ds)) [
  | inl same ↦
      rw same (
        ground
          (arith, same, ==_iff o p, same_columns_iff cs ds, ==_iff (joined o cs) (joined p ds)))
  | inr other ↦ rw other (
      ground (
        arith,
        other,
        ==_iff o p,
        same_columns_iff cs ds,
        ==_iff (joined o cs) (joined p ds),
        joined-injective o p cs ds fo fp,
      ))
]
