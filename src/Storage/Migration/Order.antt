-- ===== src/Storage/Migration/Order.antt =====
-- `isFirstVersionHigherThanSecond` orders the versions.
use test_lib.Common.{◌<◌, Bool, true, false, ◌≡◌, ◌⊎◌, ◌↔◌, arith}
use test_lib.Storage.Migration.{
  Version, is_first_version_higher_than_second, is_first_version_equal_to_second,
}

-- `a` comes after `b` in the order by major, minor and patch number
abbrev pub IsAfter : Version → Version → Type 0
IsAfter a b = (b.0 < a.0) ⊎ ((a.0 ≡ b.0) × ((b.1 < a.1) ⊎ ((a.1 ≡ b.1) × (b.2 < a.2))))

pub higher_iff : (a b : Version) → (is_first_version_higher_than_second a b ≡ true) ↔ IsAfter a b
unfolding is_first_version_higher_than_second
higher_iff a b = ground arith

pub higher_trans :
    (a b c : Version)
    → is_first_version_higher_than_second a b ≡ true
    → is_first_version_higher_than_second b c ≡ true
    → is_first_version_higher_than_second a c ≡ true
higher_trans a b c h k =
    let h' : IsAfter a b = (higher_iff a b).0 h in
    let k' : IsAfter b c = (higher_iff b c).0 k in (higher_iff a c).1 (ground arith)

one_is_higher :
    (a b : Version)
    → (is_first_version_higher_than_second a b ≡ true)
      ⊎ ((is_first_version_equal_to_second a b ≡ true)
          ⊎ (is_first_version_higher_than_second b a ≡ true))
unfolding is_first_version_higher_than_second is_first_version_equal_to_second
one_is_higher a b = ground arith

-- The two tests are those of a strict total order, which is the one by major, minor and patch number.
pub record IsVersionOrder (higher equal : Version → Version → Bool) : Type 0 where
  pub higher_as : (a b : Version) → (higher a b ≡ true) ↔ IsAfter a b
  pub equal_as : (a b : Version) → (equal a b ≡ true) ↔ (a ≡ b)
  pub irreflexive : (a : Version) → higher a a ≡ false
  pub transitive : (a b c : Version) → higher a b ≡ true → higher b c ≡ true → higher a c ≡ true
  pub connected : (a b : Version) → (higher a b ≡ true) ⊎ ((equal a b ≡ true) ⊎ (higher b a ≡ true))

equal_iff : (a b : Version) → (is_first_version_equal_to_second a b ≡ true) ↔ (a ≡ b)
unfolding is_first_version_equal_to_second
equal_iff a b = ground arith

not_higher : (a : Version) → is_first_version_higher_than_second a a ≡ false
unfolding is_first_version_higher_than_second
not_higher a = ground arith

-- `isFirstVersionHigherThanSecond` says exactly when the first version comes after the second by major,
-- then minor, then patch number, and `isFirstVersionEqualToSecond` exactly when they are the same
-- version. No version is higher than itself; what is higher than a higher version is higher; and of
-- two versions one is higher or they are equal.
pub versions-IsVersionOrder :
    IsVersionOrder is_first_version_higher_than_second is_first_version_equal_to_second
versions-IsVersionOrder = record {
  higher_as = higher_iff;
  equal_as = equal_iff;
  irreflexive = not_higher;
  transitive = higher_trans;
  connected = one_is_higher;
}
