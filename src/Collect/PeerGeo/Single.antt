-- ===== src/Collect/PeerGeo/Single.antt =====
-- No address is looked up twice at a time.
use chaindash.Base.{
  not, Bool-cases, filter, Text, text_eq, text_eq_iff, contains, ◌≡◌, refl, sym, ap, ◌∙◌, inl, inr,
  Bool, true, false, ◌&&◌, ◌||◌, List, [], ◌∷◌, arith,
}
use chaindash.Collect.PeerGeo.{
  spawn_if, Lookups, Step, Steps, round, ended, here, then_step, no_lookups, spawn_lookup,
  spawn_lookups, end_task, end_lookup,
}

-- No text twice.
abbrev pub IsSingle : List Text → Type 0
IsSingle [] = Unit
IsSingle (x ∷ xs) = (contains xs x ≡ false) × IsSingle xs

-- The addresses that are pending are those that a task looks up, and no two tasks look up one.
abbrev pub IsTracked : Lookups → Type 0
IsTracked s = IsSingle s.tasks × ((x : Text) → contains s.pending x ≡ contains s.tasks x)

spawn-IsTracked : (s : Lookups) (ip : Text) → IsTracked s → IsTracked (spawn_lookup s ip)
unfolding spawn_lookup
spawn-IsTracked s ip h = elim (Bool-cases (contains s.pending ip)) [
  | inl known ↦ rw known h
  | inr new ↦ rw new ((sym (h.1 ip) ∙ new, h.0), λ x. ap (λ b. text_eq ip x || b) (h.1 x))
]

spawn_if-IsTracked :
    (b : Bool) (s : Lookups) (ip : Text) → IsTracked s → IsTracked (spawn_if b s ip)
spawn_if-IsTracked true s ip h = spawn-IsTracked s ip h
spawn_if-IsTracked false s ip h = h

spawn_lookups-IsTracked :
    (is_enrichable : Text → Bool) (ips : List Text) (s : Lookups)
    → IsTracked s
    → IsTracked (spawn_lookups is_enrichable ips s)
unfolding spawn_lookups
spawn_lookups-IsTracked is_enrichable [] s h = h
spawn_lookups-IsTracked is_enrichable (ip ∷ ips) s h =
    spawn_lookups-IsTracked is_enrichable ips (spawn_if (is_enrichable ip) s ip)
      (spawn_if-IsTracked (is_enrichable ip) s ip h)

contains-end_task :
    (ip x : Text) (tasks : List Text)
    → IsSingle tasks
    → contains (end_task ip tasks) x ≡ (contains tasks x && not (text_eq ip x))
unfolding end_task contains
contains-end_task ip x [] h = refl
contains-end_task ip x (task ∷ tasks) h = ground (
  arith,
  contains-end_task ip x tasks h.1,
  text_eq_iff task ip,
  text_eq_iff task x,
  text_eq_iff ip x,
  h.0,
)

end_task-IsSingle : (ip : Text) (tasks : List Text) → IsSingle tasks → IsSingle (end_task ip tasks)
unfolding end_task
end_task-IsSingle ip [] h = tt
end_task-IsSingle ip (task ∷ tasks) h = elim (Bool-cases (text_eq task ip)) [
  | inl same ↦ rw same h.1
  | inr other ↦
      rw other
        (ground (arith, contains-end_task ip task tasks h.1, h.0), end_task-IsSingle ip tasks h.1)
]

contains-filter :
    (ip x : Text) (xs : List Text)
    → contains (filter (λ y. not (text_eq y ip)) xs) x ≡ (contains xs x && not (text_eq ip x))
unfolding filter contains
contains-filter ip x [] = refl
contains-filter ip x (y ∷ ys) =
    ground (arith, contains-filter ip x ys, text_eq_iff y ip, text_eq_iff y x, text_eq_iff ip x)

end-IsTracked : (s : Lookups) (ip : Text) → IsTracked s → IsTracked (end_lookup ip s)
unfolding end_lookup
end-IsTracked s ip h = (
  end_task-IsSingle ip s.tasks h.0,
  λ x. rw (contains-filter ip x s.pending, contains-end_task ip x s.tasks h.0, h.1 x) refl,
)

step-IsTracked :
    (is_enrichable : Text → Bool) (s t : Lookups)
    → Step is_enrichable s t
    → IsTracked s
    → IsTracked t
step-IsTracked is_enrichable s t (round ips) h = spawn_lookups-IsTracked is_enrichable ips s h
step-IsTracked is_enrichable s t (ended ip running) h = end-IsTracked s ip h

-- In every run of rounds and ends of tasks, in any order, from no lookups: no two tasks that run look
-- up one address, and the addresses that are pending are those that a task looks up.
pub Steps-IsTracked :
    (is_enrichable : Text → Bool) (t : Lookups) → Steps is_enrichable no_lookups t → IsTracked t
Steps-IsTracked is_enrichable t here = (tt, λ x. refl)
Steps-IsTracked is_enrichable t (then_step run step) =
    step-IsTracked is_enrichable _ t step (Steps-IsTracked is_enrichable _ run)
