-- ===== src/Models/Pairs.antt =====
-- In the tables of the models of src/emu, each event that pushes a state has one that pops it.
use ovni.Prelude.{
  ℕ, ◌≡◌, refl, sym, ap, subst, ◌∙◌, Bool, true, false, not, ◌&&◌, ◌||◌, Option, none, some, List,
  [], ◌∷◌, if◌then◌else◌, ◌==◌, arith, Bool-cases, inl, inr, if-cases,
}
use ovni.Models.{Row, Action, do_push, do_pop, do_set, ignore, find_row}
use ovni.Models.Tampi.{tampi_table}
use ovni.Models.Mpi.{mpi_table}
use ovni.Models.Nodes.{nodes_table}
use ovni.Models.Openmp.{openmp_table}
use ovni.Models.Nosv.{nosv_table}
use ovni.Models.Nanos6.{nanos6_table}

abbrev pub is_push : Action → Bool
is_push do_push = true
is_push _ = false

abbrev pub is_pop : Action → Bool
is_pop do_pop = true
is_pop _ = false

-- Whether an event ends what the entry begins.
abbrev pub ends : Row → Option Row → Bool
ends r none = false
ends r (some e) = is_pop e.action && (e.chan == r.chan) && (e.state == r.state)

-- The value of an event of the same category that ends the entry, among those of a list.
abbrev pub end_of : List Row → Row → List Row → Option ℕ
end_of table r [] = none
end_of table r (e ∷ es) =
    if (e.c == r.c) && ends r (find_row table r.c e.v) then some e.v else end_of table r es

abbrev pub is_found : Option ℕ → Bool
is_found none = false
is_found (some v) = true

abbrev pub all_end : List Row → List Row → Bool
all_end table [] = true
all_end table (r ∷ rs) =
    (not (is_push r.action) || is_found (end_of table r table)) && all_end table rs

end_of_lem :
    (table : List Row) (r : Row) (es : List Row)
    → is_found (end_of table r es) ≡ true
    → (v : ℕ) × (ends r (find_row table r.c v) ≡ true)
end_of_lem table r [] h = cc
end_of_lem table r (e ∷ es) h =
    elim (Bool-cases ((e.c == r.c) && ends r (find_row table r.c e.v))) [
      | inl k ↦ (e.v, ground arith)
      | inr k ↦ end_of_lem table r es (rw k at h)
    ]

pub row_ends :
    (table rs : List Row) (c v : ℕ) (r : Row)
    → all_end table rs ≡ true
    → find_row rs c v ≡ some r
    → r.action ≡ do_push
    → (r.c ≡ c) × (v' : ℕ) × (ends r (find_row table r.c v') ≡ true)
unfolding find_row
row_ends table [] c v r h e p = cc
row_ends table (x ∷ rs) c v r h e p = elim (if-cases ((x.c == c) && (x.v == v)) _ _ e) [
  | inl (hit, same) ↦
      let is : x ≡ r = cc in
      let found : is_found (end_of table r table) ≡ true =
        subst (λ u. is_found (end_of table u table) ≡ true) is
          (and_of (x.action) (is_found (end_of table x table)) (all_end table rs)
            (ap (λ u. u.action) is ∙ p) h) in
      let (v', k) = end_of_lem table r table found in (ap (λ u. u.c) (sym is) ∙ ground arith, v', k)
  | inr (miss, rest) ↦
      row_ends table rs c v r
        (and_right (not (is_push x.action) || is_found (end_of table x table)) (all_end table rs) h)
        rest p
]
  where
    and_right : (a b : Bool) → (a && b) ≡ true → b ≡ true
    and_right true b h = h
    and_right false b h = cc

    and_of :
        (a : Action) (f b : Bool) → a ≡ do_push → ((not (is_push a) || f) && b) ≡ true → f ≡ true
    and_of do_push true b p h = refl
    and_of do_push false b p h = cc
    and_of do_pop f b p h = cc
    and_of do_set f b p h = cc
    and_of ignore f b p h = cc

-- The models whose events are in a table.
pub data TableModel : Type 0 where
  tampi mpi nodes openmp nosv nanos6 : TableModel

abbrev pub table_of : TableModel → List Row
table_of tampi = tampi_table
table_of mpi = mpi_table
table_of nodes = nodes_table
table_of openmp = openmp_table
table_of nosv = nosv_table
table_of nanos6 = nanos6_table

pub all_paired : (m : TableModel) → all_end (table_of m) (table_of m) ≡ true
unfolding find_row
all_paired tampi = refl
all_paired mpi = refl
all_paired nodes = refl
all_paired openmp = refl
all_paired nosv = refl
all_paired nanos6 = refl

pub ends_lem :
    (r : Row) (o : Option Row)
    → ends r o ≡ true
    → (e : Row) × (o ≡ some e) × (e.action ≡ do_pop) × (e.chan ≡ r.chan) × (e.state ≡ r.state)
ends_lem r none h = cc
ends_lem r (some e) h =
    (e, refl, pops e.action (e.chan == r.chan) (e.state == r.state) h, ground arith, ground arith)
  where
    pops : (a : Action) (b d : Bool) → (is_pop a && b && d) ≡ true → a ≡ do_pop
    pops do_pop b d h = refl
    pops do_push b d h = cc
    pops do_set b d h = cc
    pops ignore b d h = cc
