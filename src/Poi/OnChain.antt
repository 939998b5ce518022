-- ===== src/Poi/OnChain.antt =====
-- The interface to the staking pallet that the runtime sets for the inference pallet:
-- PosInterfaceImpl of cerulea-runtime/src/configs/mod.rs, over the storage of the staking pallet.

use cerulea.Common.{ℕ, ◌≡◌, refl, arith}
use cerulea.Frame.Errors.{bad_origin}
use cerulea.Frame.Action.{err, Origin, root, signed, unsigned}
use cerulea.Pos.State.{ValidatorHandler, on_pos}
use cerulea.Pos.Registry.{boost_score, slash_score}
use cerulea.Poi.State.{Config, PosInterface, DcfInterface, InferenceErrorSeverity, World}
use cerulea.Poi.Calls.{
  challenge_inference, record_inference_activity, handle_valid_inference, handle_invalid_inference,
}

module _ {H B : Type 0} (hdl : ValidatorHandler H) where
  unfoldable pub pos_interface : PosInterface (cerulea.Pos.State.World H B)
  pos_interface = record {
    boost_score = λ validator weight. on_pos (boost_score root validator weight);
    slash_score = λ validator weight. on_pos (slash_score root validator weight);
    get_active_validators = λ w. hdl.get_active_validators w.handler;
  }

  module _ (cfg : Config) (dcf : DcfInterface (cerulea.Pos.State.World H B)) where
    challenge_others :
        (o : Origin) (a r : ℕ) (w : World (cerulea.Pos.State.World H B))
        → (challenge_inference cfg pos_interface dcf o a r w).1.others ≡ w.others
    unfolding challenge_inference pos_interface slash_score
    challenge_others root a r w = refl
    challenge_others unsigned a r w = refl
    challenge_others (signed who) a r w = ground arith

    -- With the interface that the runtime sets, no challenge changes anything in the staking
    -- pallet, and the handling of a valid and of an invalid inference always fails: the calls of
    -- the staking pallet want a signed origin and get the root.
    pub challenge-pos_interface :
        (o : Origin) (a r v c : ℕ) (s : InferenceErrorSeverity)
        (w : World (cerulea.Pos.State.World H B))
        → ((challenge_inference cfg pos_interface dcf o a r w).1.others ≡ w.others)
          × ((handle_valid_inference cfg pos_interface dcf v c w).0 ≡ err bad_origin)
          × ((handle_invalid_inference cfg pos_interface dcf v s w).0 ≡ err bad_origin)
    unfolding handle_valid_inference handle_invalid_inference record_inference_activity
        pos_interface slash_score boost_score
    challenge-pos_interface o a r v c s w = (challenge_others o a r w, ground arith, ground arith)
