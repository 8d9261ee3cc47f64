-- ===== src/Storage/Migration/Needed.antt =====
-- The needed updates lead from the stored version to the wanted one without a gap.
use test_lib.Common.{
  true, false, Option, none, some, List, [], ◌∷◌, ◌≡◌, ◌≢◌, ◌⊎◌, inl, inr, refl, sym, subst, arith,
  Bool-cases, not, filter, All,
}
use test_lib.Exec.{ok}
use test_lib.Storage.Migration.{
  VersionString, Version, parse_version_string, is_first_version_higher_than_second, Update,
  is_at_least, is_beyond, is_needed, last_to_version, is_other, same_version_string,
  checked_updates, needed_updates,
}
use test_lib.Storage.Migration.Order.{higher_trans}

-- each update starts at the version that the one before it leads to
pub data IsPath : VersionString → List Update → VersionString → Type 0 where
  arrived : {v : VersionString} → IsPath v [] v
  updated :
      {u : Update} {us : List Update} {w : VersionString}
      → IsPath u.to_version us w
      → IsPath u.from_version (u ∷ us) w

-- each update raises the version
abbrev pub IsAscending : List Update → Type 0
IsAscending = All (λ u.
    is_first_version_higher_than_second (parse_version_string u.to_version)
      (parse_version_string u.from_version)
    ≡ true)

-- beyond the wanted version, there is nothing to do
filter-beyond :
    (current : Version) (wanted : VersionString) {v w : VersionString} (us : List Update)
    → IsPath v us w
    → IsAscending us
    → is_first_version_higher_than_second (parse_version_string v) (parse_version_string wanted)
      ≡ true
    → filter (is_needed current (some wanted)) us ≡ []
unfolding is_needed is_beyond
filter-beyond current wanted [] arrived a h = refl
filter-beyond current wanted (u ∷ us) (updated p) (up, a) h =
    let above =
      higher_trans (parse_version_string u.to_version) (parse_version_string u.from_version)
        (parse_version_string wanted) up h in
    rw above (filter-beyond current wanted us p a above)

-- what the filter keeps of a path: nothing, or a path to a wanted place
abbrev IsKept : Version → Option VersionString → VersionString → List Update → Type 0
IsKept current wanted end kept =
    (kept ≡ [])
    ⊎ ((u : Update) × (us : List Update) × (target : VersionString) × (kept ≡ u ∷ us)
        × IsPath u.from_version (u ∷ us) target
        × (is_first_version_higher_than_second (parse_version_string u.to_version) current ≡ true)
        × (wanted ≡ none → target ≡ end))

abbrev to : Update → Version
to u = parse_version_string u.to_version

-- an update above the storage is kept unless it is beyond the wanted version
is_needed-above :
    (current : Version) (wanted : Option VersionString) (u : Update)
    → is_first_version_higher_than_second (to u) current ≡ true
    → is_needed current wanted u ≡ not (is_beyond u wanted)
unfolding is_needed
is_needed-above current wanted u h = rw h (ground arith)

pub is_needed-below :
    (current : Version) (wanted : Option VersionString) (u : Update)
    → is_first_version_higher_than_second (to u) current ≡ false
    → is_needed current wanted u ≡ false
unfolding is_needed
is_needed-below current wanted u h = rw h (ground arith)

is_needed-beyond :
    (current : Version) (wanted : Option VersionString) (u : Update)
    → is_beyond u wanted ≡ true
    → is_needed current wanted u ≡ false
unfolding is_needed
is_needed-beyond current wanted u h = rw h refl

-- an update beyond the wanted version, and all after it, are dropped
drop_rest :
    (current : Version) (wanted : Option VersionString) (u : Update) {w : VersionString}
    (us : List Update)
    → IsPath u.to_version us w
    → IsAscending us
    → is_beyond u wanted ≡ true
    → (filter (is_needed current wanted) (u ∷ us) ≡ []) × (wanted ≢ none)
unfolding is_beyond
drop_rest current none u us p a h = absurd (ground (arith, h))
drop_rest current (some t) u us p a h = (
  rw (is_needed-beyond current (some t) u h, filter-beyond current t us p a h) refl,
  λ e. absurd (ground (arith, e)),
)

filter-after :
    (current : Version) (wanted : Option VersionString) {v w : VersionString} (us : List Update)
    → IsPath v us w
    → IsAscending us
    → is_first_version_higher_than_second (parse_version_string v) current ≡ true
    → (target : VersionString) × IsPath v (filter (is_needed current wanted) us) target
      × (wanted ≡ none → target ≡ w)
filter-after current wanted [] arrived a h = (_, arrived, λ _. refl)
filter-after current wanted (u ∷ us) (updated p) (up, a) h =
    let above = higher_trans (to u) (parse_version_string u.from_version) current up h in
    elim (Bool-cases (is_beyond u wanted)) [
      | inl beyond ↦
          let (gone, given) = drop_rest current wanted u us p a beyond in
          (u.from_version, rw gone arrived, λ e. absurd (given e))
      | inr within ↦
          let (target, path, end) = filter-after current wanted us p a above in
          (target, rw (is_needed-above current wanted u above, within) (updated path), end)
    ]

filter-IsKept :
    (current : Version) (wanted : Option VersionString) {v w : VersionString} (us : List Update)
    → IsPath v us w
    → IsAscending us
    → IsKept current wanted w (filter (is_needed current wanted) us)
filter-IsKept current wanted [] arrived a = inl refl
filter-IsKept current wanted (u ∷ us) (updated p) (up, a) =
    elim (Bool-cases (is_first_version_higher_than_second (to u) current)) [
      | inr below ↦
          rw (is_needed-below current wanted u below) (filter-IsKept current wanted us p a)
      | inl above ↦ elim (Bool-cases (is_beyond u wanted)) [
        | inl beyond ↦ inl (drop_rest current wanted u us p a beyond).0
        | inr within ↦
            let (target, path, end) = filter-after current wanted us p a above in
            inr (
              u,
              filter (is_needed current wanted) us,
              target,
              rw (is_needed-above current wanted u above, within) refl,
              updated path,
              above,
              end,
            )
      ]
    ]

last-IsPath :
    {v w : VersionString} (u : Update) (us : List Update)
    → IsPath v (u ∷ us) w
    → last_to_version u us ≡ w
last-IsPath u [] (updated arrived) = refl
last-IsPath u (next ∷ us) (updated p) = last-IsPath next us p

same_version_string_lem : (a b : VersionString) → same_version_string a b ≡ true → a ≡ b
unfolding same_version_string
same_version_string_lem a b h = go a.patch b.patch refl refl
  where
    go : (p q : Option _) → a.patch ≡ p → b.patch ≡ q → a ≡ b
    go none none e e' = ground (arith, e, e', h)
    go (some p) (some q) e e' = ground (arith, e, e', h)
    go none (some q) e e' = absurd (ground (arith, e, e', h))
    go (some p) none e e' = absurd (ground (arith, e, e', h))

-- the version that the updates are to reach
abbrev pub goal : Option VersionString → VersionString → VersionString
goal none end = end
goal (some wanted) end = wanted

is_other-goal :
    (wanted : Option VersionString) (end target : VersionString)
    → is_other wanted target ≡ false
    → (wanted ≡ none → target ≡ end)
    → target ≡ goal wanted end
is_other-goal none end target h e = e refl
is_other-goal (some t) end target h e = same_version_string_lem target t (ground (arith, h))

checked-ok :
    (current : Version) (wanted : Option VersionString) (kept : List Update) (u : Update)
    (us : List Update)
    → checked_updates current wanted kept ≡ ok (u ∷ us)
    → (kept ≡ u ∷ us)
      × (is_first_version_higher_than_second (parse_version_string u.from_version) current ≡ false)
      × (is_other wanted (last_to_version u us) ≡ false)
checked-ok current wanted [] u us h = absurd (ground (arith, h))
checked-ok current wanted (x ∷ xs) u us h =
    elim (Bool-cases
      (is_first_version_higher_than_second (parse_version_string x.from_version) current)) [
        | inl old ↦ absurd (ground (arith, rw old at h))
        | inr fit ↦ elim (Bool-cases (is_other wanted (last_to_version x xs))) [
          | inl other ↦ absurd (ground (arith, rw (fit, other) at h))
          | inr goal_met ↦
              let e : ok (x ∷ xs) ≡ ok (u ∷ us) = rw (fit, goal_met) at h in
              let ex : x ≡ u = cc in
              let exs : xs ≡ us = cc in (cc, rw (sym ex) fit, rw (sym ex, sym exs) goal_met)
        ]
      ]

-- From a chain of updates that raise the version, the updates that are needed form a path: it
-- starts with an update at or below the stored version that leads above it, and ends at the wanted
-- version, or at the end of the chain if none is wanted.
pub needed_updates-IsPath :
    (updates : List Update) (current : Version) (wanted : Option VersionString)
    (start end : VersionString) (u : Update) (us : List Update)
    → IsPath start updates end
    → IsAscending updates
    → needed_updates updates current wanted ≡ ok (u ∷ us)
    → IsPath u.from_version (u ∷ us) (goal wanted end)
      × (is_first_version_higher_than_second (parse_version_string u.from_version) current ≡ false)
      × (is_first_version_higher_than_second (parse_version_string u.to_version) current ≡ true)
unfolding needed_updates
needed_updates-IsPath updates current wanted start end u us p a h =
    elim (Bool-cases (is_at_least current wanted)) [
      | inl done ↦ absurd (ground (arith, rw (needed_updates, done) at h))
      | inr behind ↦
          let (kept, fit, last) =
            checked-ok current wanted _ u us (rw (needed_updates, behind) at h) in
          elim (filter-IsKept current wanted updates p a) [
            | inl gone ↦ absurd (ground (arith, kept, gone))
            | inr (x, xs, target, is, path, above, ends) ↦
                let ex : x ≡ u = cc in
                let exs : xs ≡ us = cc in
                let path' : IsPath u.from_version (u ∷ us) target =
                  subst (λ (y : Update). IsPath y.from_version (y ∷ us) target) ex
                    (rw (sym exs) path) in
                let reached : target ≡ goal wanted end =
                  is_other-goal wanted end target (rw (sym (last-IsPath u us path')) last) ends in
                (rw (sym reached) path', fit, rw (sym ex) above)
          ]
    ]
