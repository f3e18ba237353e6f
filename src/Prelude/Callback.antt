-- ===== src/Prelude/Callback.antt =====
-- What a call of caller-supplied code does: it returns, or it panics and a deferred recover runs.
pub data Call {ℓ} (A : Type ℓ) : Type ℓ where
  returned : A → Call A
  panicked : Call A

-- `defer func() { if recover() != nil { … } }()`: the value on a panic.
abbrev pub recovered {ℓ} : {A : Type ℓ} → A → Call A → A
recovered fallback (returned a) = a
recovered fallback panicked = fallback
