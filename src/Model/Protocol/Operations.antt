-- ===== src/Model/Protocol/Operations.antt =====
-- The operation names of src/ipc/ipc_protocol.cpp and the texts that are read as them.
use ezcap.Base.{some, ◌≡◌, ◌↔◌, arith, Text, codes, text_eq_iff}
use ezcap.Model.Protocol.{Operation, operation_name, operation_from_name}

-- An operation is read from a text exactly when the text is its wire name, byte for byte.
pub operation_from_name_iff :
    (n : Text) (op : Operation) → (operation_from_name n ≡ some op) ↔ (n ≡ operation_name op)
unfolding operation_from_name operation_name
operation_from_name_iff n op = ground (
  arith,
  text_eq_iff n (codes "hello"),
  text_eq_iff n (codes "get_status"),
  text_eq_iff n (codes "subscribe"),
  text_eq_iff n (codes "unsubscribe"),
  text_eq_iff n (codes "set_policy"),
  text_eq_iff n (codes "get_policy"),
  text_eq_iff n (codes "shutdown"),
)
