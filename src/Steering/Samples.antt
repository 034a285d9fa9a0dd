-- ===== src/Steering/Samples.antt =====
-- Two handles on one store.
use pirs.Prelude.{◌≡◌, none, some, List, [], ◌∷◌, ◌++◌}
use pirs.Prelude.Text.{lit}
use pirs.Steering.{all, one_at_a_time, Handle, empty_store, pending_at}
use pirs.Steering.Delivery.{Call, push_call, drain_call, delivered, pushed, run, delivered-pending}

abbrev main_agent : Handle
main_agent = record { mode = one_at_a_time; scope = none }

abbrev sub_agent : Handle
sub_agent = record { mode = all; scope = some (lit "sub") }

abbrev calls : List Call
calls =
    push_call main_agent (lit "a")
    ∷ push_call sub_agent (lit "b")
    ∷ push_call main_agent (lit "c")
    ∷ drain_call main_agent
    ∷ drain_call sub_agent
    ∷ []

delivered-pending_example :
    delivered none calls empty_store ++ pending_at none (run calls empty_store)
    ≡ pending_at none empty_store ++ pushed none calls
delivered-pending_example = delivered-pending none calls empty_store
