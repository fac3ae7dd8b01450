-- ===== src/Cache/Names.antt =====
-- The names that generate_name gives out (taskturbine-core/src/models.rs).
use taskturbine.Base.{
  ℕ, ◌+◌, ◌-◌, ◌*◌, ◌%◌, ◌/◌, ◌≤◌, ◌<◌, ◌≡◌, ◌≢◌, refl, sym, ap, ◌∙◌, List, [], ◌∷◌, ◌++◌, false,
  or_else, zero, suc, length, inl, inr, Bool-cases, ==_refl, arith, if◌then◌else◌,
}
use taskturbine.Base.Text.{Text, text_eq, text_eq_refl, text_eq_sound, codes}
use taskturbine.Cache.{
  digits, show_count, Checkpoints, new, format_name, get_counter, generate_name,
}

-- The number that digits denote.
value : ℕ → Text → ℕ
value acc [] = acc
value acc (c ∷ cs) = value (acc * 10 + (c - 48)) cs

value-append :
    (acc : ℕ) (xs : Text) (c : ℕ) → value acc (xs ++ c ∷ []) ≡ value acc xs * 10 + (c - 48)
unfolding value
value-append acc [] c = refl
value-append acc (x ∷ xs) c = value-append (acc * 10 + (x - 48)) xs c

value-digits : (f n : ℕ) → n < f → value 0 (digits f n) ≡ n
unfolding digits value
value-digits zero n h = absurd (omega arith)
value-digits (suc f) n h =
    ground (arith, value-digits f (n / 10), value-append 0 (digits f (n / 10)) (48 + n % 10))

show_count_injective : (m n : ℕ) → show_count m ≡ show_count n → m ≡ n
unfolding show_count
show_count_injective m n e =
    sym (value-digits (suc m) m (omega arith))
    ∙ (ap (value 0) e ∙ value-digits (suc n) n (omega arith))

append_cancel : (xs ys zs : Text) → xs ++ ys ≡ xs ++ zs → ys ≡ zs
append_cancel [] ys zs e = e
append_cancel (x ∷ xs) ys zs e = append_cancel xs ys zs (cc)

append_longer : (xs ys : Text) (c : ℕ) → xs ≢ xs ++ c ∷ ys
append_longer [] ys c e = cc
append_longer (x ∷ xs) ys c e = append_longer xs ys c (cc)

-- Two names of one step are equal only for equal counts.
pub format_name_injective :
    (name : Text) (i j : ℕ) → format_name name i ≡ format_name name j → i ≡ j
unfolding format_name
format_name_injective name i j e = ground (
  arith,
  append_longer name (show_count i) 35,
  append_longer name (show_count j) 35,
  append_cancel name (35 ∷ show_count i) (35 ∷ show_count j),
  show_count_injective i j,
)

-- How often a name has been given out.
abbrev pub count_of : Checkpoints → Text → ℕ
count_of c name = or_else (get_counter c name) 0

-- Calls of generate_name, one after the other, their names left aside.
unfoldable pub generate_each : List Text → Checkpoints → Checkpoints
generate_each [] c = c
generate_each (n ∷ ns) c = generate_each ns (generate_name n c).1

generate_name-count :
    (n m : Text) (c : Checkpoints)
    → count_of (generate_name m c).1 n
      ≡ (if text_eq n m then (count_of c m + 1) % 4294967296 else count_of c n)
unfolding generate_name get_counter
generate_name-count n m c = ground arith

generate_name_bounds :
    (n m : Text) (c : Checkpoints)
    → count_of c n + 1 < 4294967296
    → (count_of c n ≤ count_of (generate_name m c).1 n)
      × (count_of (generate_name m c).1 n ≤ count_of c n + 1)
generate_name_bounds n m c h = elim (Bool-cases (text_eq n m)) [
  | inl same ↦
      rw (← text_eq_sound n m same, generate_name-count n n c, text_eq_refl n) (omega arith)
  | inr other ↦ rw (generate_name-count n m c, other) (omega arith)
]

generate_each_bounds :
    (n : Text) (ms : List Text) (c : Checkpoints)
    → count_of c n + length ms < 4294967296
    → (count_of c n ≤ count_of (generate_each ms c) n)
      × (count_of (generate_each ms c) n ≤ count_of c n + length ms)
unfolding generate_each
generate_each_bounds n [] c h = omega arith
generate_each_bounds n (m ∷ ms) c h =
    let step = generate_name_bounds n m c (omega arith) in
    omega (arith, step, generate_each_bounds n ms (generate_name m c).1 (omega (arith, step)))

-- Two steps of one name get different checkpoint names, whatever names are generated between them,
-- as long as a counter of 32 bits does not wrap around.
pub generate_name_distinct :
    (name : Text) (between : List Text) (c : Checkpoints)
    → count_of c name + length between + 2 < 4294967296
    → (generate_name name c).0
      ≢ (generate_name name (generate_each between (generate_name name c).1)).0
generate_name_distinct name between c h e =
    let first = generate_name-count name name c in
    let c1 = (generate_name name c).1 in
    let one : count_of c1 name ≡ count_of c name + 1 =
      rw (first, text_eq_refl name) (omega arith) in
    let bounds = generate_each_bounds name between c1 (omega arith) in
    let same =
      format_name_injective name ((count_of c name + 1) % 4294967296)
        ((count_of (generate_each between c1) name + 1) % 4294967296) (unfold generate_name in e) in
    absurd (omega (arith, one, bounds, same))

longer_ne : (name : Text) (c : ℕ) (cs : Text) → text_eq (name ++ c ∷ cs) name ≡ false
unfolding text_eq
longer_ne [] c cs = refl
longer_ne (x ∷ xs) c cs = rw (==_refl x, longer_ne xs c cs)

-- A name with a counter is the plain name of another step: after two steps `name`, the first step
-- `name#2` gets the checkpoint name of the second of them.
pub generate_name_collides :
    (name : Text)
    → let c = (generate_name name new).1 in
      (generate_name (name ++ codes "#2") (generate_name name c).1).0 ≡ (generate_name name c).0
unfolding generate_name get_counter format_name show_count digits
generate_name_collides name = rw (longer_ne name 35 (50 ∷ []), text_eq_refl name)
