-- ===== src/Contracts.antt =====
-- What the ordering agent hands to the cart (src/contracts/cart-operation.schema.ts and
-- src/contracts/proposal.ts). The schema has checked the operations: keys are not empty, and a
-- quantity is a positive integer.
use voice_order_backend.Base.{ℕ, ◌<◌, List, String}

pub data CartOperation : Type 0 where
  add_item : String → ℕ → List String → CartOperation
  remove_item : String → CartOperation
  update_quantity : String → ℕ → CartOperation
  add_modifier : String → String → CartOperation
  remove_modifier : String → String → CartOperation

-- `quantity: z.number().int().positive()`
abbrev pub HasQuantity : CartOperation → Type 0
HasQuantity (add_item key quantity modifiers) = 0 < quantity
HasQuantity (update_quantity line quantity) = 0 < quantity
HasQuantity _ = Unit {0}

pub record OrderProposal : Type 0 where
  pub request_id : String
  pub cart_id : String
  pub pos_config_id : ℕ
  pub base_version : ℕ
  pub operations : List CartOperation
