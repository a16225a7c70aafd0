-- ===== src/Lifecycle/Depth.antt =====
-- The label of a goroutine profile that tells how deep a lifecycle is nested: pprofIncrementLabel of
-- lifecycle.go, and the labels that execute gives to a lifecycle and those below it.
use Prim.Native.Nat.{◌^◌}
use go_component.Prelude.{
  ℕ, zero, suc, ◌+◌, ◌-◌, ◌≤◌, ◌≡◌, ◌⊎◌, inl, inr, refl, true, Option, none, some, String,
  if◌then◌else◌, ltb, arith, ℤ, pos, negsuc, parse_int, fits_int, itoa, parse_int-itoa,
  parse_int-fits, Option-cases, ◌↔◌, Bool-cases,
}

-- d + 1 of a Go int of 64 bits
unfoldable pub next_int : ℤ → ℤ
next_int (pos n) = if ltb (n + 1) (2 ^ 63) then pos (n + 1) else negsuc (2 ^ 63 - 1)
next_int (negsuc zero) = pos 0
next_int (negsuc (suc n)) = negsuc n

next_label : Option ℤ → Option String
unfolding next_int
next_label none = none
next_label (some d) = some (itoa (next_int d))

-- pprofIncrementLabel: from the value of the label, if it has one, its new value; `none` is the
-- panic. Atoi is ParseInt at 64 bits.
unfoldable pub pprof_increment_label : Option String → Option String
unfolding next_label
pprof_increment_label none = some "0"
pprof_increment_label (some v) = next_label (parse_int 64 v)

again : Option String → Option String
unfolding pprof_increment_label
again none = none
again (some v) = pprof_increment_label (some v)

-- The label component.depth of the lifecycle of Run, and of one so many levels below it: each
-- lifecycle is executed with its parent's context. `label` is that of the context given to Run.
unfoldable pub depth_label : (label : Option String) → ℕ → Option String
unfolding again
depth_label label zero = pprof_increment_label label
depth_label label (suc d) = again (depth_label label d)

fits-next_int : (z : ℤ) → fits_int 64 z ≡ true → fits_int 64 (next_int z) ≡ true
unfolding next_int
fits-next_int (pos n) h = ground arith
fits-next_int (negsuc zero) h = ground arith
fits-next_int (negsuc (suc n)) h = ground arith

again-itoa : (z : ℤ) → fits_int 64 z ≡ true → again (some (itoa z)) ≡ some (itoa (next_int z))
unfolding again
again-itoa z h = rw (parse_int-itoa 64 z h) refl

next_exact :
    (z : ℤ) (d : ℕ) → (z ≡ pos d) ⊎ (2 ^ 63 ≤ d) → (next_int z ≡ pos (suc d)) ⊎ (2 ^ 63 ≤ suc d)
unfolding next_int
next_exact z d (inr deep) = inr (omega arith)
next_exact z d (inl exact) = elim (Bool-cases (ltb (d + 1) (2 ^ 63))) [
  | inl below ↦ inl (ground arith)
  | inr above ↦ inr (ground arith)
]

-- A label that the context has is counted on, at any depth, if it is an integer.
depth_label-counts :
    (v : String) (z : ℤ) (d : ℕ)
    → parse_int 64 v ≡ some z
    → (y : ℤ) × (depth_label (some v) d ≡ some (itoa y)) × (fits_int 64 y ≡ true)
unfolding depth_label pprof_increment_label next_label
depth_label-counts v z zero e = (next_int z, rw e refl, fits-next_int z (parse_int-fits 64 v z e))
depth_label-counts v z (suc d) e =
    let (y, labelled, fits) = depth_label-counts v z d e in
    (next_int y, rw labelled (again-itoa y fits), fits-next_int y fits)

depth_label-panics : (v : String) (d : ℕ) → parse_int 64 v ≡ none → depth_label (some v) d ≡ none
unfolding depth_label pprof_increment_label
depth_label-panics v zero e = rw e refl
depth_label-panics v (suc d) e = rw (depth_label-panics v d e) refl

-- Without a label in the context given to Run, execute does not panic for the label, however deep
-- lifecycles are nested: the label of one `d` levels below that of Run is a 64-bit integer as Itoa
-- prints it, and that integer is `d` while `d` is below 2^63.
pub depth_label_lem :
    (d : ℕ)
    → (z : ℤ) × (depth_label none d ≡ some (itoa z))
      × (fits_int 64 z ≡ true)
      × ((z ≡ pos d) ⊎ (2 ^ 63 ≤ d))
unfolding depth_label itoa
depth_label_lem zero = (pos 0, refl, ground arith, inl refl)
depth_label_lem (suc d) =
    let (z, labelled, fits, exact) = depth_label_lem d in
    (next_int z, rw labelled (again-itoa z fits), fits-next_int z fits, next_exact z d exact)

-- If the context given to Run has the label, execute panics for it, at whatever depth, exactly if
-- its value is no 64-bit integer.
pub depth_label-eq-none :
    (v : String) (d : ℕ) → (depth_label (some v) d ≡ none) ↔ (parse_int 64 v ≡ none)
depth_label-eq-none v d = elim (Option-cases (parse_int 64 v)) [
  | inl bad ↦ ((λ e. bad), depth_label-panics v d)
  | inr (z, good) ↦
      ((λ e. let (y, labelled, fits) = depth_label-counts v z d good in cc), (λ e. cc))
]
