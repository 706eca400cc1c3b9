-- ===== src/Storage/Keyed/Effects.antt =====
-- storage/redb_backend.rs: what a request for one organisation may do to a database: writes that name
-- that organisation, whatever the outcome.
use peat_gateway.Base.{
  Text, Bool, true, false, List, [], ◌∷◌, ◌≡◌, ◌≢◌, refl, sym, ap, ◌∙◌, subst, Result, ok, err,
  Exec, continue, if◌then◌else◌,
}
use peat_gateway.Storage.Redb.{Redb, Json}
use peat_gateway.Storage.Keys.Prefixes.{NulFree}
use peat_gateway.Storage.Backend.{Db}
use peat_gateway.Storage.Isolation.{Write, owner, apply, run}
use peat_gateway.Storage.Isolation.Writes.{AllOthers}
use peat_gateway.Storage.Isolation.Reads.{answers, answers-run_ne}
use peat_gateway.Storage.Keyed.{Keyed, Fits, apply-Keyed}

-- The write fits and names `o`, if `o` has no zero byte.
abbrev pub NamesOnly : Text → Write → Type 0
NamesOnly o w = Fits w × (NulFree o → owner w ≡ o)

abbrev pub AllName : Text → List Write → Type 0
AllName o [] = Unit {0}
AllName o (w ∷ ws) = NamesOnly o w × AllName o ws

AllName-AllOthers :
    (o p : Text) (ws : List Write) → NulFree o → o ≢ p → AllName o ws → AllOthers p ws
AllName-AllOthers o p [] free ne h = tt
AllName-AllOthers o p (w ∷ ws) free ne ((fits, named), rest) =
    let same = sym (named free) in
    ((subst NulFree same free, subst (λ x. x ≢ p) same ne), AllName-AllOthers o p ws free ne rest)

module _ {T : Type 0} ⦃r : Redb T⦄ ⦃j : Json⦄ (o : Text) where
  pub record Effect (db s : Db T) : Type 0 where
    pub writes : List Write
    pub reached : s ≡ run db writes
    pub named : AllName o writes

  pub unchanged : (db : Db T) → Effect db db
  unfolding run
  unchanged db = record { writes = []; reached = refl; named = tt }

  pub written : (db : Db T) (w : Write) → NamesOnly o w → Effect db (apply db w)
  unfolding run
  written db w n = record { writes = w ∷ []; reached = refl; named = (n, tt) }

  pub written_twice :
      (db : Db T) (v w : Write) → NamesOnly o v → NamesOnly o w → Effect db (apply (apply db v) w)
  unfolding run
  written_twice db v w n m = record { writes = v ∷ w ∷ []; reached = refl; named = (n, (m, tt)) }

  module _ {A B : Type 0} (db : Db T) where
    pub continue-Effect :
        (q : Result A) (f : A → Exec (Db T) B)
        → ((a : A) → q ≡ ok a → Effect db (f a db).1)
        → Effect db (continue q f db).1
    continue-Effect (ok a) f h = h a refl
    continue-Effect (err e) f h = unchanged db

  pub if-Effect :
      {B : Type 0} (db s : Db T) (b : Bool) (m n : Exec (Db T) B)
      → Effect db (m s).1
      → Effect db (n s).1
      → Effect db ((if b then m else n) s).1
  if-Effect db s true m n hm hn = hm
  if-Effect db s false m n hm hn = hn

run-Keyed :
    {T : Type 0} ⦃r : Redb T⦄ ⦃j : Json⦄ (o : Text) (ws : List Write) (db : Db T)
    → AllName o ws
    → Keyed db
    → Keyed (run db ws)
unfolding run
run-Keyed o [] db n h = h
run-Keyed o (w ∷ ws) db (n, ns) h = run-Keyed o ws (apply db w) ns (apply-Keyed db w n.0 h)

module _ {T : Type 0} ⦃r : Redb T⦄ ⦃j : Json⦄ (o : Text) {db s : Db T}
    (effect : Effect o db s) where
  pub Effect-Keyed : Keyed db → Keyed s
  Effect-Keyed h = subst Keyed (sym effect.reached) (run-Keyed o effect.writes db effect.named h)

  -- What another organisation reads does not change.
  pub Effect-answers : (p : Text) → NulFree o → NulFree p → o ≢ p → answers s p ≡ answers db p
  Effect-answers p free other ne =
      ap (λ d. answers d p) effect.reached
      ∙ answers-run_ne db p effect.writes other
          (AllName-AllOthers o p effect.writes free ne effect.named)
