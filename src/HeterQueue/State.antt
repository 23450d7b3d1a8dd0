-- ===== src/HeterQueue/State.antt =====
-- heter_queue.h: the state of a queue and the memory that its control blocks live in.
use density.Base.{ℕ, List}
use density.HeterQueue.Layout.{Layout, s_invalid_control_block}

pub record ExternalBlock : Type 0 where
  pub m_element : ℕ
  pub m_size : ℕ
  pub m_alignment : ℕ

-- What the destructors are called on, last first.
pub data Event (T V : Type 0) : Type 0 where
  element_destroyed : V → Event T V
  type_destroyed : T → Event T V

-- The memory is a map for each kind of object, by the address of the control block in front of it:
-- the word `m_next`, the runtime type, the element, and the `ExternalBlock` of an external element.
pub record Queue (A T V : Type 0) : Type 0 where
  pub m_next : ℕ → ℕ
  pub types : ℕ → T
  pub elements : ℕ → V
  pub externals : ℕ → ExternalBlock
  pub m_head : ℕ
  pub m_tail : ℕ
  pub allocator : A
  pub events : List (Event T V)

module _ {A T V : Type 0} ⦃l : Layout⦄ where
  -- The default constructor, over memory of any content.
  unfoldable pub init : (memory : Queue A T V) → Queue A T V
  unfolding s_invalid_control_block
  init memory = record memory { m_head = s_invalid_control_block; m_tail = s_invalid_control_block }
