-- ===== src/Common/Results.antt =====
-- The outcome of a call that may throw.

pub data Exception : Type 0 where
  invalid_argument logic_error length_error config_not_found config_type_mismatch : Exception

pub data Result {ℓ} (A : Type ℓ) : Type ℓ where
  returned : A → Result A
  thrown : Exception → Result A

-- The state that a call leaves behind: what it threw before it wrote anything leaves it alone.
abbrev pub after {ℓ} : {A : Type ℓ} → A → Result A → A
after s (returned t) = t
after s (thrown e) = s
