-- ===== src/Store/MiniKv.antt =====
-- A store of values under keys, each with the time at which it is dropped.
use prompt_graft.Base.{
  ℕ, ◌+◌, Bool, true, false, Option, none, some, ◌≡◌, refl, inl, inr, eqb, ltb, if◌then◌else◌,
  Bytes, ◌==◌, Bool-cases,
}
use prompt_graft.Store.Variants.{Kv, IsKv, is_kept}

pub data Cell : Type 0 where
  no_value : Cell
  forever : Bytes → Cell
  dropped_at : Bytes → ℕ → Cell

abbrev pub Cells : Type 0
Cells = Bytes → Cell

abbrev pub no_values : Cells
no_values k = no_value

abbrev read_cell : ℕ → Cell → Option Bytes
read_cell now no_value = none
read_cell now (forever v) = some v
read_cell now (dropped_at v time) = if ltb now time then some v else none

abbrev cell_of : ℕ → Bytes → ℕ → Cell
cell_of now v ttl = if eqb ttl 0 then forever v else dropped_at v (now + ttl)

abbrev pub mini_kv : Kv Cells
mini_kv = record {
  get = λ now s k. read_cell now (s k);
  set = λ now s k v ttl. (true, λ j. if k == j then cell_of now v ttl else s j);
  del = λ s k. (true, λ j. if k == j then no_value else s j);
}

read-cell_of :
    (now later : ℕ) (v : Bytes) (ttl : ℕ)
    → read_cell later (cell_of now v ttl) ≡ (if is_kept now ttl later then some v else none)
read-cell_of now later v ttl = elim (Bool-cases (eqb ttl 0)) [
  | inl e ↦ rw e refl
  | inr e ↦ rw e refl
]

read-if :
    (b : Bool) (later : ℕ) (x y : Cell)
    → read_cell later (if b then x else y) ≡ (if b then read_cell later x else read_cell later y)
read-if true later x y = refl
read-if false later x y = refl

pub mini_kv-IsKv : IsKv mini_kv
mini_kv-IsKv = record {
  get-set = λ now later s k v ttl j h ok.
      rw (read-if (k == j) later (cell_of now v ttl) (s j), read-cell_of now later v ttl) refl;
  get-del = λ later s k j ok. read-if (k == j) later no_value (s j);
}
