-- ===== src/Interpreter.antt =====
-- interpreter: the circuit, and the state that a repetition keeps while it runs one.
pub mod Plain
pub mod Single
pub mod Combine
use reverie_ppr.Prelude.{ℕ, List}

-- `mcircuit::Operation<T>`, with the constructors that `step` matches: the destination wire
-- first, then the sources.
pub data Operation (K : Type 0) : Type 0 where
  input random : ℕ → Operation K
  add sub mul : ℕ → ℕ → ℕ → Operation K
  add_const sub_const mul_const : ℕ → ℕ → K → Operation K
  assert_zero : ℕ → Operation K
  constant : ℕ → K → Operation K
