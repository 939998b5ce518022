-- ===== src/Dcf/Private/Tests.antt =====
-- The private chain mode at a small chain.
use cerulea.Common.{◌≡◌, refl, true, false, List, [], ◌∷◌, some, contains}
use cerulea.Frame.Bank.{Bank, bank}
use cerulea.Dcf.State.{Chain}
use cerulea.Dcf.Sample.{cfg, chain}
use cerulea.Dcf.Private.{remove_from_validator_allowlist}
use cerulea.Dcf.Private.Allowed.{IsValid}
use cerulea.Dcf.Private.Reach
use cerulea.Dcf.Private.Reach.{run_all, run_all-IsValid}
use cerulea.Dcf.Private.Forced.{remove_from_validator_allowlist-set}

abbrev calls : List (Reach.Call bank)
calls = Reach.enables cfg (2 ∷ 7 ∷ []) true ∷ Reach.adds 5 ∷ Reach.removes 7 ∷ []

run_all-IsValid_example : IsValid (run_all bank calls chain).dcf.private_chain_config
run_all-IsValid_example = run_all-IsValid bank calls chain tt

-- The chain in private mode with both validators on the list.
abbrev listed : Chain Bank
listed = record chain {
  dcf = record (chain.dcf) {
    private_chain_config = some (record {
      enabled = true;
      validator_allowlist = 1 ∷ 2 ∷ [];
      allow_allowlist_updates = true;
      max_allowlist_size = 4;
    });
  };
}

remove_from_validator_allowlist-set_example :
    (contains (remove_from_validator_allowlist bank 1 listed).1.world.handler.validator_set 1
      ≡ false)
    × (contains (remove_from_validator_allowlist bank 1 listed).1.world.handler.active_validators 1
        ≡ true)
unfolding remove_from_validator_allowlist
remove_from_validator_allowlist-set_example =
    remove_from_validator_allowlist-set bank 1 listed refl refl refl
