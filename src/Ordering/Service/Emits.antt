-- ===== src/Ordering/Service/Emits.antt =====
-- What a handled transcript puts on the bus (order-understanding-service.ts).
use voice_order_backend.Contracts.{OrderProposal}
use voice_order_backend.Ordering.Mentioned.{Mention}
use voice_order_backend.Ordering.Batch.Checked.{IsChecked}
use voice_order_backend.Ordering.State.{Services, OrderState}
use voice_order_backend.Ordering.CartView.{line_views, CartView}
use voice_order_backend.Ordering.Service.{
  operations_proposed, order_reply, session_failed, Emitted, FinalTranscript, dispatch, interpret,
}
use voice_order_backend.Base.{◌≡◌, ◌⊎◌, [], ℕ, ◌∷◌, some, List, Option, String}

-- A proposal for the transcript's cart, checked, with the version of the cart that the turn saw.
pub record IsProposal (d : Services) (e : FinalTranscript) (event : Emitted) : Type 0 where
  pub proposal : OrderProposal
  pub sent : event ≡ operations_proposed e.session_id proposal
  pub ids :
      (proposal.request_id ≡ e.request_id)
      × (proposal.cart_id ≡ e.cart_id)
      × (proposal.pos_config_id ≡ e.pos_config_id)
  pub view : CartView
  pub version : proposal.base_version ≡ view.version
  pub step : ℕ
  pub call : ℕ
  pub checked :
      IsChecked
        (d.tooling step call)
        (record { pos_config_id = e.pos_config_id; cart_view = some (line_views view) })
        proposal.operations

abbrev pub IsReply : FinalTranscript → Emitted → Type 0
IsReply e event =
    (reply : String) × (language : String) × (items : Option (List Mention)) × (event
      ≡ order_reply e reply language items)

-- Nothing, one failure, one reply, one proposal, or a proposal and then a reply.
abbrev pub IsOneOutcome : Services → FinalTranscript → List Emitted → Type 0
IsOneOutcome d e [] = Unit {0}
IsOneOutcome d e (a ∷ []) =
    ((reason : String) × (a ≡ session_failed e.session_id e.cart_id reason))
    ⊎ (IsReply e a ⊎ IsProposal d e a)
IsOneOutcome d e (a ∷ b ∷ []) = IsProposal d e a × IsReply e b
IsOneOutcome d e (a ∷ b ∷ c ∷ rest) = ⊥

module _ (d : Services) (tts_language : String) (e : FinalTranscript) (s : OrderState) where
  -- The events of the result that a state reads as.
  abbrev events_of : OrderState → List Emitted
  events_of s' = dispatch tts_language e (interpret s')
