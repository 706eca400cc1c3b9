-- ===== src/Config/RoundTrip.antt =====
-- config.rs: mappings that are written out as PEAT_MESH_BROKERS are read back.
use peat_gateway.Base.{
  subst, ℕ, Text, false, some, List, [], ◌∷◌, ◌++◌, map, ok, ◌≡◌, refl, ap, sym, ◌∙◌, nat_eq,
  nat_eq_iff, trim_slashes,
}
use peat_gateway.Config.{MeshBrokerMapping}
use peat_gateway.Config.Spaces.{trim, split, nonempty, is_blank}
use peat_gateway.Config.Mappings.{
  parse_parts, parse_entry, parse_entries, parse_mesh_broker_mappings, next_part, collections_of,
  or_default,
}

abbrev pub joined : ℕ → List Text → Text
joined c [] = []
joined c (s ∷ []) = s
joined c (s ∷ t ∷ ts) = s ++ (c ∷ joined c (t ∷ ts))

abbrev pub print_entry : MeshBrokerMapping → Text
print_entry m = joined b'|' (m.org_id ∷ m.app_id ∷ m.base_url ∷ joined b',' m.collections ∷ [])

abbrev pub print : List MeshBrokerMapping → Text
print ms = joined b';' (map print_entry ms)

-- The byte is not in the text.
abbrev pub Without : ℕ → Text → Type 0
Without c [] = Unit {0}
Without c (x ∷ s) = (nat_eq x c ≡ false) × Without c s

abbrev pub AllWithout : ℕ → List Text → Type 0
AllWithout c [] = Unit {0}
AllWithout c (s ∷ ss) = Without c s × AllWithout c ss

-- A text that is not empty and has no white space around it.
abbrev pub IsTrimmed : Text → Type 0
IsTrimmed s = (is_blank s ≡ false) × (trim s ≡ s)

abbrev pub AllTrimmed : List Text → Type 0
AllTrimmed [] = Unit {0}
AllTrimmed (s ∷ ss) = IsTrimmed s × AllTrimmed ss

split-Without : (c : ℕ) (s : Text) → Without c s → split c s ≡ s ∷ []
unfolding split
split-Without c [] free = refl
split-Without c (x ∷ s) free = rw (free.0, split-Without c s free.1) refl

split-append : (c : ℕ) (s t : Text) → Without c s → split c (s ++ (c ∷ t)) ≡ s ∷ split c t
unfolding split
split-append c [] t free = rw ((nat_eq_iff c c).1 refl) refl
split-append c (x ∷ s) t free = rw (free.0, split-append c s t free.1) refl

split-joined :
    (c : ℕ) (s : Text) (ss : List Text)
    → AllWithout c (s ∷ ss)
    → split c (joined c (s ∷ ss)) ≡ s ∷ ss
split-joined c s [] free = split-Without c s free.0
split-joined c s (t ∷ ts) free =
    split-append c s (joined c (t ∷ ts)) free.0 ∙ ap (λ l. s ∷ l) (split-joined c t ts free.1)

map-trim : (ss : List Text) → AllTrimmed ss → map trim ss ≡ ss
map-trim [] clean = refl
map-trim (s ∷ ss) clean = rw (clean.0.1, map-trim ss clean.1) refl

nonempty-AllTrimmed : (ss : List Text) → AllTrimmed ss → nonempty ss ≡ ss
nonempty-AllTrimmed [] clean = refl
nonempty-AllTrimmed (s ∷ ss) clean = rw (clean.0.0, nonempty-AllTrimmed ss clean.1) refl

Without-append : (c : ℕ) (s t : Text) → Without c s → Without c t → Without c (s ++ t)
Without-append c [] t hs ht = ht
Without-append c (x ∷ s) t hs ht = (hs.0, Without-append c s t hs.1 ht)

Without-joined :
    (c d : ℕ) (ss : List Text) → nat_eq d c ≡ false → AllWithout c ss → Without c (joined d ss)
Without-joined c d [] ne free = tt
Without-joined c d (s ∷ []) ne free = free.0
Without-joined c d (s ∷ t ∷ ts) ne free =
    Without-append c s (d ∷ joined d (t ∷ ts)) free.0 (ne, Without-joined c d (t ∷ ts) ne free.1)

-- A mapping that can be written out: its parts are trimmed and hold none of the separators, and
-- there is a collection. The parts that are put together are trimmed too.
pub record IsPrintable (m : MeshBrokerMapping) : Type 0 where
  pub parts : AllTrimmed (m.org_id ∷ m.app_id ∷ m.base_url ∷ joined b',' m.collections ∷ [])
  pub collections : AllTrimmed m.collections
  pub entry : IsTrimmed (print_entry m)
  pub some_collection : (c : Text) × (cs : List Text) × (m.collections ≡ c ∷ cs)
  pub no_slash : trim_slashes m.base_url ≡ m.base_url
  pub no_semicolon : AllWithout b';' (m.org_id ∷ m.app_id ∷ m.base_url ∷ m.collections)
  pub no_bar : AllWithout b'|' (m.org_id ∷ m.app_id ∷ m.base_url ∷ m.collections)
  pub no_comma : AllWithout b',' m.collections

abbrev pub AllPrintable : List MeshBrokerMapping → Type 0
AllPrintable [] = Unit {0}
AllPrintable (m ∷ ms) = IsPrintable m × AllPrintable ms

collections_of-printed :
    (m : MeshBrokerMapping)
    → IsPrintable m
    → collections_of (joined b',' m.collections ∷ []) ≡ m.collections
unfolding collections_of
collections_of-printed m p =
    let (c, cs, q) = p.some_collection in
    ap or_default (
      ap (λ l. nonempty (map trim l))
        (subst (λ l. split b',' (joined b',' l) ≡ l) (sym q)
          (split-joined b',' c cs (subst (AllWithout b',') q p.no_comma)))
      ∙ ap nonempty (map-trim m.collections p.collections)
      ∙ nonempty-AllTrimmed m.collections p.collections)
    ∙ subst (λ l. or_default l ≡ l) (sym q) refl

next_part-trimmed : (s : Text) (ss : List Text) → IsTrimmed s → next_part (s ∷ ss) ≡ ok (s, ss)
unfolding next_part
next_part-trimmed s ss t = rw t.0 refl

parse_parts-printed :
    (m : MeshBrokerMapping)
    → IsPrintable m
    → parse_parts (m.org_id ∷ m.app_id ∷ m.base_url ∷ joined b',' m.collections ∷ []) ≡ ok m
unfolding parse_parts
parse_parts-printed m p =
    let cols = joined b',' m.collections in
    rw
      (
        next_part-trimmed m.org_id (m.app_id ∷ m.base_url ∷ cols ∷ []) p.parts.0,
        next_part-trimmed m.app_id (m.base_url ∷ cols ∷ []) p.parts.1.0,
        next_part-trimmed m.base_url (cols ∷ []) p.parts.1.1.0,
        p.no_slash,
        collections_of-printed m p,
      )
      refl

parse_entry-print_entry :
    (m : MeshBrokerMapping) → IsPrintable m → parse_entry (print_entry m) ≡ ok m
unfolding parse_entry
parse_entry-print_entry m p =
    let free = p.no_bar in
    let cols = joined b',' m.collections in
    ap parse_parts (
      ap (map trim) (
        split-joined b'|' m.org_id (m.app_id ∷ m.base_url ∷ cols ∷ []) (
          free.0,
          (free.1.0, (free.1.1.0, (Without-joined b'|' b',' m.collections refl free.1.1.1, tt))),
        ))
      ∙ map-trim (m.org_id ∷ m.app_id ∷ m.base_url ∷ cols ∷ []) p.parts)
    ∙ parse_parts-printed m p

parse_entries-print :
    (ms : List MeshBrokerMapping) → AllPrintable ms → parse_entries (map print_entry ms) ≡ ok ms
unfolding parse_entries
parse_entries-print [] p = refl
parse_entries-print (m ∷ ms) p = rw (parse_entry-print_entry m p.0, parse_entries-print ms p.1) refl

entries_trimmed : (ms : List MeshBrokerMapping) → AllPrintable ms → AllTrimmed (map print_entry ms)
entries_trimmed [] p = tt
entries_trimmed (m ∷ ms) p = (p.0.entry, entries_trimmed ms p.1)

entry_Without : (m : MeshBrokerMapping) → IsPrintable m → Without b';' (print_entry m)
entry_Without m p =
    let free = p.no_semicolon in
    Without-joined b';' b'|' (m.org_id ∷ m.app_id ∷ m.base_url ∷ joined b',' m.collections ∷ [])
      refl
      (
        free.0,
        (free.1.0, (free.1.1.0, (Without-joined b';' b',' m.collections refl free.1.1.1, tt))),
      )

entries_Without :
    (ms : List MeshBrokerMapping) → AllPrintable ms → AllWithout b';' (map print_entry ms)
entries_Without [] p = tt
entries_Without (m ∷ ms) p = (entry_Without m p.0, entries_Without ms p.1)

-- The entries of a text that is put together of them.
entries_of-print :
    (ms : List MeshBrokerMapping)
    → AllPrintable ms
    → nonempty (map trim (split b';' (print ms))) ≡ map print_entry ms
unfolding split trim
entries_of-print [] p = refl
entries_of-print (m ∷ ms) p =
    ap (λ l. nonempty (map trim l))
      (split-joined b';' (print_entry m) (map print_entry ms) (entries_Without (m ∷ ms) p))
    ∙ ap nonempty (map-trim (map print_entry (m ∷ ms)) (entries_trimmed (m ∷ ms) p))
    ∙ nonempty-AllTrimmed (map print_entry (m ∷ ms)) (entries_trimmed (m ∷ ms) p)

-- Mappings that are written out with their separators are read back the same, if each of their
-- parts, and what they are put together to, is trimmed and not empty, no part holds a separator,
-- no URL ends in a slash, and each mapping has a collection.
pub parse_mesh_broker_mappings-print :
    (ms : List MeshBrokerMapping)
    → AllPrintable ms
    → parse_mesh_broker_mappings (some (print ms)) ≡ ok ms
unfolding parse_mesh_broker_mappings
parse_mesh_broker_mappings-print ms p =
    ap parse_entries (entries_of-print ms p) ∙ parse_entries-print ms p
