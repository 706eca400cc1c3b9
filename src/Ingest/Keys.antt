-- ===== src/Ingest/Keys.antt =====
-- mesh_ingest.rs: the collections of a snapshot have different names.
use peat_gateway.Base.{
  ==_refl, and_then, subst, ℕ, Text, ◌==◌, ==_iff, none, some, List, [], ◌∷◌, Result, ok, err, ◌≡◌,
  refl, ◌∙◌, arith, if◌then◌else◌, Bool-cases, inl, inr,
}
use peat_gateway.Api.Claims.{Value}
use peat_gateway.Config.{MeshBrokerMapping}
use peat_gateway.Ingest.{Documents, get, insert, collect, collected, Snapshot, Answers, fetch}

abbrev pub HasUniqueKeys : Documents → Type 0
HasUniqueKeys [] = Unit {0}
HasUniqueKeys ((c, docs) ∷ m) = (get c m ≡ none) × HasUniqueKeys m

get-insert :
    (c x : Text) (docs : List Value) (m : Documents)
    → get x (insert c docs m) ≡ (if c == x then some docs else get x m)
unfolding get insert
get-insert c x docs [] = refl
get-insert c x docs ((d, old) ∷ m) =
    ground (arith, ==_iff c x, ==_iff d c, ==_iff d x, get-insert c x docs m)

insert-HasUniqueKeys :
    (c : Text) (docs : List Value) (m : Documents)
    → HasUniqueKeys m
    → HasUniqueKeys (insert c docs m)
unfolding insert get
insert-HasUniqueKeys c docs [] h = (refl, tt)
insert-HasUniqueKeys c docs ((d, old) ∷ m) h = elim (Bool-cases (d == c)) [
  | inl same ↦ rw same (subst (λ x. get x m ≡ none) ((==_iff d c).0 same) h.0, h.1)
  | inr other ↦ rw other (
    get-insert c d docs m ∙ ground (arith, other, ==_iff c d, ==_iff d c, h.0),
    insert-HasUniqueKeys c docs m h.1,
  )
]

collected-HasUniqueKeys :
    (c : Text) (q : Result (List Value)) (m : Documents)
    → HasUniqueKeys m
    → HasUniqueKeys (collected c q m)
unfolding collected
collected-HasUniqueKeys c (ok docs) m h = insert-HasUniqueKeys c docs m h
collected-HasUniqueKeys c (err e) m h = h

collect-HasUniqueKeys :
    (answer : Text → Result (List Value)) (cs : List Text) (m : Documents)
    → HasUniqueKeys m
    → HasUniqueKeys (collect answer cs m)
unfolding collect
collect-HasUniqueKeys answer [] m h = h
collect-HasUniqueKeys answer (c ∷ cs) m h =
    collect-HasUniqueKeys answer cs _ (collected-HasUniqueKeys c (answer c) m h)

abbrev KeysOf : Result Snapshot → Type 0
KeysOf (ok new) = HasUniqueKeys new.documents
KeysOf (err e) = Unit

and_then-ok :
    {A B : Type 0} (q : Result A) (f : A → Result B) (b : B)
    → and_then q f ≡ ok b
    → (a : A) × (f a ≡ ok b)
and_then-ok (ok a) f b h = (a, h)
and_then-ok (err e) f b h = absurd cc

pub fetch-HasUniqueKeys :
    (mapping : MeshBrokerMapping) (answers : Answers) (now_ms : ℕ) (new : Snapshot)
    → fetch mapping answers now_ms ≡ ok new
    → HasUniqueKeys new.documents
unfolding fetch
fetch-HasUniqueKeys mapping answers now_ms new h =
    let (node, h₁) = and_then-ok answers.node _ new h in
    let (topology, h₂) = and_then-ok answers.topology _ new h₁ in
    let (peers, h₃) = and_then-ok answers.peers _ new h₂ in
    subst (λ q. KeysOf q) h₃ (collect-HasUniqueKeys answers.documents mapping.collections [] tt)

-- Each collection of the first is in the second with the same documents.
abbrev pub AllGet : Documents → Documents → Type 0
AllGet [] m = Unit {0}
AllGet ((c, docs) ∷ new) m = (get c m ≡ some docs) × AllGet new m

AllGet-cons :
    (c : Text) (docs : List Value) (new m : Documents)
    → get c m ≡ none
    → AllGet new m
    → AllGet new ((c, docs) ∷ m)
unfolding get
AllGet-cons c docs [] m missing h = tt
AllGet-cons c docs ((d, ds) ∷ new) m missing h = (
  elim (Bool-cases (c == d)) [
    | inl same ↦ absurd (let q : c ≡ d = (==_iff c d).0 same in cc)
    | inr other ↦ rw other h.0
  ],
  AllGet-cons c docs new m missing h.1,
)

pub AllGet-self : (m : Documents) → HasUniqueKeys m → AllGet m m
unfolding get
AllGet-self [] h = tt
AllGet-self ((c, docs) ∷ m) h =
    (rw (==_refl c) refl, AllGet-cons c docs m m h.0 (AllGet-self m h.1))
