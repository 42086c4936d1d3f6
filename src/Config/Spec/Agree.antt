-- ===== src/Config/Spec/Agree.antt =====
-- A configuration matches by the values under the keys of its specification alone
-- (backend/src/config/spec.rs).
use start_os.Common.{◌≡◌, refl, Bool, true, false, if◌then◌else◌, ok, >>-eq-ok}
use start_os.S9pk.Bytes.{Bytes, bytes_beq, bytes_beq_iff}
use start_os.Config.Json.{Fields, get, get_or_null}
use start_os.Config.Spec.Syntax.{Crates, ConfigSpec, no_keys, key}
use start_os.Config.Spec.Errors.{at-ok, name}
use start_os.Config.Spec.Validate.{has_key}
use start_os.Config.Spec.Matches.{matches_any, matches_config}

pub bytes_beq_refl : (k : Bytes) → bytes_beq k k ≡ true
bytes_beq_refl k = (bytes_beq_iff k k).1 refl

module _ (crates : Crates) where
  open crates use {Number}

  pub matches_config-agree :
      (spec : ConfigSpec crates) (o o' : Fields Number)
      → ((k : Bytes) → has_key k spec ≡ true → get k o' ≡ get k o)
      → matches_config crates spec o ≡ ok tt
      → matches_config crates spec o' ≡ ok tt
  unfolding matches_config
  matches_config-agree no_keys o o' same h = refl
  matches_config-agree (key n val rest) o o' same h =
      let (first, others) = >>-eq-ok _ (matches_config crates rest o) tt h in
      let value : get_or_null n o' ≡ get_or_null n o =
        rw (get_or_null, same n (rw (bytes_beq_refl n) refl)) refl in
      let first' = at-ok crates (name n) (matches_any crates val (get_or_null n o)) first in
      let rest' =
        matches_config-agree rest o o' (λ k known. same k (if_known (bytes_beq k n) known))
          others in
      rw (value, first', rest') refl
    where
      if_known : (b : Bool) {c : Bool} → c ≡ true → (if b then true else c) ≡ true
      if_known true h = refl
      if_known false h = h
