-- ===== src/Script/Tests.antt =====
-- A push that needs a length byte of its own.
use p2pool_go_vtc.Prelude.{◌≡◌, some, [], ◌∷◌, ◌++◌, replicate, arith}
use p2pool_go_vtc.Prelude.Bytes.{Bytes}
use p2pool_go_vtc.Script.{add_data}
use p2pool_go_vtc.Script.Push.{read_push, read_push-add_data}

abbrev long : Bytes
long = replicate 80 7

read_push-add_data_example : read_push (add_data long [] ++ (1 ∷ [])) ≡ some (long, 1 ∷ [])
read_push-add_data_example = read_push-add_data long (1 ∷ []) (omega arith)
