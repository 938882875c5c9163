-- ===== src/Tests/EthereumTasks.antt =====
-- Tests of the tasks of the EVM driver.
use crosschain_enhanced_by_a.Prelude.{
  [], ◌∷◌, ◌++◌, none, some, ok, ◌>>=◌, ◌≡◌, refl, if◌then◌else◌,
}
use crosschain_enhanced_by_a.Prelude.Int.{pos}
use crosschain_enhanced_by_a.Prelude.Text.{codes}
use crosschain_enhanced_by_a.Prelude.Bytes.{left_pad}
use crosschain_enhanced_by_a.Evm.Address.{trim_prefixes}
use crosschain_enhanced_by_a.Evm.Item.{
  get_asset_config, item_asset_config, Task, Operation, task, unset,
}
use crosschain_enhanced_by_a.Evm.Builder.{
  new_tx_builder, method_id, build_erc20_payload, padded_amount,
}
use crosschain_enhanced_by_a.Evm.Task.Send.{new_transfer}
use crosschain_enhanced_by_a.Evm.Task.{
  Payload, Transfer, Decimals, operation_payload, build_task_payload,
}
use crosschain_enhanced_by_a.Evm.Task.Value.{HasMethod, any_binds_amount, operation_payload-value}
use crosschain_enhanced_by_a.Evm.Task.Agreement.{
  bound_param, transfer_operation, Limited, build_task_payload-erc20, new_transfer-Limited,
}
use crosschain_enhanced_by_a.Tests.Toy.{twenty, toy, eth_config, usdc, fresh}

abbrev toy_decimals : Decimals
toy_decimals = record {
  big_int = λ t. some (pos 3);
  shifted_quotient = λ fee price decimals. pos 9;
}

abbrev to_bob : Transfer
to_bob = record { from = codes "ann"; to = codes "bob"; amount = pos 1000; input = fresh }

abbrev transfer_op : Operation
transfer_op =
    transfer_operation (bound_param (codes "to") [] [] unset)
      (bound_param (codes "amount") [] [] unset)

abbrev transfer_task : Task
transfer_task = record {
  code = codes "Transfer";
  operations = transfer_op ∷ [];
  arbiter_fee_usd = none;
  src_asset = some usdc;
  dst_asset = none;
}

abbrev transfer_payload : Payload
transfer_payload = record {
  to = codes "usdc";
  value = pos 0;
  data_bytes =
      0xa9 ∷ 0x05 ∷ 0x9c ∷ 0xbb ∷ []
      ++ left_pad 32 (twenty (codes "bob"))
      ++ padded_amount (pos 1000);
}

operation_payload-value_example :
    HasMethod toy (pos 1000) transfer_op transfer_payload
    × (transfer_payload.value ≡ (if any_binds_amount transfer_op.params then pos 0 else pos 1000))
unfolding operation_payload
operation_payload-value_example =
    operation_payload-value toy toy_decimals transfer_task eth_config to_bob transfer_op refl

build_task_payload-erc20_example : build_task_payload toy toy_decimals transfer_task to_bob ≡ (
    build_erc20_payload toy (codes "bob") (pos 1000) >>= λ bytes.
    ok (record { to = codes "usdc"; value = pos 0; data_bytes = bytes }))
unfolding trim_prefixes method_id get_asset_config
build_task_payload-erc20_example =
    build_task_payload-erc20 toy toy_decimals transfer_task usdc to_bob [] [] [] [] unset unset refl
      refl refl refl

new_transfer-Limited_example :
    Limited (new_transfer toy toy_decimals (new_tx_builder (task transfer_task)) to_bob).0
unfolding new_tx_builder item_asset_config
new_transfer-Limited_example =
    new_transfer-Limited toy toy_decimals (new_tx_builder (task transfer_task)) to_bob refl
