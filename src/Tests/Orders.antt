-- ===== src/Tests/Orders.antt =====
-- The operations on the orders of the shop of the tests.
use automatizacion_wh.Common.{
  trim, non_blank, is_space, same_text, select_all, ◌≡◌, refl, false, ◌&&◌, Memᴰ, some, List, [],
  ◌∷◌, codes, sum_of, select_one, update_where, exists_row, ok, ascii, text_eq, arith,
}
use automatizacion_wh.Database.{Db}
use automatizacion_wh.Database.Orders.{Order, Summary, draft, confirmed}
use automatizacion_wh.Order.State.{transitions, assert_transition}
use automatizacion_wh.Order.Rows.{
  is_order, lock_order, map_order, require_mapped, complete_order, assert_selected_quote_policy,
  set_status,
}
use automatizacion_wh.Order.Validation.{
  parse_shoe_size, validate_order_quantity, normalize_colombian_phone, national_number, is_mobile,
}
use automatizacion_wh.Order.Ledger.{IsConsistent, units}
use automatizacion_wh.Order.Ledger.Transitions.{transition-IsConsistent, transition-units}
use automatizacion_wh.Order.Transition.{
  transition, transition_locked, apply_transition, apply_action, record_event,
}
use automatizacion_wh.Order.Transition.Confirm.{
  confirm_order, confirmed_summary, available_stock, record_confirmation, reserve_stock,
  set_confirmed, enqueue_guide_job, open_confirmed_alert,
}
use automatizacion_wh.Order.Transition.Moves.{dispatch_order, ship_units}
use automatizacion_wh.Order.Transition.Laws.{confirm_idempotent}
use automatizacion_wh.Order.Transition.Dispatch.{HasGuide, dispatch_needs_guide}
use automatizacion_wh.Order.Edit.{create, find_locality, link_customer, new_order, insert_order}
use automatizacion_wh.Order.Edit.Laws.{create-IsConsistent}
use automatizacion_wh.Order.Patch.{
  is_anonymized, sets_personal_data, update, edit_values, editable_order, store_edit, write_edit,
  relink, patched, reuse_destination, reused,
}
use automatizacion_wh.Order.Patch.Touches.{
  NextVersion, Trusted, SentTo, update_touches_draft, reuse_touches_draft,
}
use automatizacion_wh.Order.Drafts.{SameContact, other_orders}
use automatizacion_wh.Order.Summaries.{
  create_summary, summarize, store_summary, check_quote, build_snapshot, shipping_cost,
  snapshot_quote,
}
use automatizacion_wh.Order.Summaries.Shown.{Shown, create_summary_shows}
use automatizacion_wh.Customer.Contact.{resolve_customer_contact, match_existing}
use automatizacion_wh.Catalog.Stock.{
  set_physical_stock, validate_quantity, adjust_stock, insert_stock, replace_stock,
}
use automatizacion_wh.Catalog.Stock.Laws.{set_physical_stock-IsConsistent}
use automatizacion_wh.Shipping.Policy.{
  parse_policy, has_consistent_carriers, all_distinct, overlaps, all_candidates_offered,
}
use automatizacion_wh.Shipping.Selection.{is_eligible_carrier_quote}
use automatizacion_wh.System.{
  Command, after, after_write, opening, run, step, creates, summarizes, transits, sets_stock,
  others, run-opening-IsConsistent,
}
use automatizacion_wh.Tests.Shop.{
  shoe, shelf, town, ana, quote, pair_of_boots, drafted, summarized, packed, morning, evening,
  confirms, dispatches, wish, move, counted, home,
}

packed-IsConsistent : IsConsistent packed
unfolding sum_of exists_row
packed-IsConsistent = record {
  unique_orders = λ order_id. ((λ e. refl), tt);
  unique_stock = λ r z. ((λ e. refl), tt);
  bounded = (ground arith, tt);
  balanced = λ r z. ground arith;
}

transition-units_example :
    units (after packed (transition morning ascii packed dispatches)) 7 380 ≡ 5
unfolding transition transition_locked apply_transition apply_action record_event dispatch_order
    ship_units set_status assert_transition transitions lock_order require_mapped map_order
    parse_shoe_size select_one update_where sum_of
transition-units_example =
    transition-units morning ascii packed dispatches packed-IsConsistent refl 7 380

drafted-IsConsistent : IsConsistent drafted
unfolding sum_of exists_row
drafted-IsConsistent = record {
  unique_orders = λ order_id. ((λ e. refl), tt);
  unique_stock = λ r z. ((λ e. refl), tt);
  bounded = (ground arith, tt);
  balanced = λ r z. ground arith;
}

-- The draft that `wish` makes, as it is read before its summary.
abbrev wanted : Order
wanted = record pair_of_boots {
  id = 20;
  order_number = 13;
  quantity = 1;
  customer_name = some (codes "Bea");
  customer_phone = some (codes "+573009998877");
  customer_id = some 21;
  address = some (codes "Calle 2");
}

abbrev quoted : Db
quoted = record drafted {
  customers =
      record ana {
        id = 21;
        display_name = some (codes "Bea");
        normalized_phone = some (codes "+573009998877");
      }
      ∷ ana
      ∷ [];
  quotes = record quote { order_id = 20 } ∷ [];
}

-- Stock is counted, a draft is made, quoted and summarised, and its customer confirms it.
abbrev day : List Command
day =
    sets_stock counted
    ∷ creates morning wish
    ∷ others quoted
    ∷ summarizes morning (record drafted { orders = wanted ∷ [] }) 20
    ∷ transits morning (record confirms { order_id = 20 })
    ∷ []

run-opening-IsConsistent_example :
    IsConsistent (run ascii (opening (shoe ∷ []) (town ∷ []) (ana ∷ [])) day)
run-opening-IsConsistent_example =
    run-opening-IsConsistent ascii (shoe ∷ []) (town ∷ []) (ana ∷ []) day

-- The confirmation succeeds, and reserves the unit.
day_reserves :
    (run ascii (opening (shoe ∷ []) (town ∷ []) (ana ∷ [])) day).stock
    ≡ record shelf { physical_quantity = 9; reserved_quantity = 1 } ∷ []
unfolding run step transition transition_locked apply_transition apply_action record_event
    confirm_order confirmed_summary complete_order assert_selected_quote_policy parse_policy
    has_consistent_carriers all_distinct overlaps all_candidates_offered is_eligible_carrier_quote
    available_stock record_confirmation reserve_stock set_confirmed enqueue_guide_job
    open_confirmed_alert build_snapshot shipping_cost snapshot_quote text_eq exists_row
    assert_transition transitions lock_order require_mapped map_order parse_shoe_size select_one
    update_where create validate_order_quantity find_locality normalize_colombian_phone
    national_number is_mobile link_customer resolve_customer_contact match_existing new_order
    insert_order select_all trim non_blank is_space same_text create_summary summarize store_summary
    check_quote set_physical_stock validate_quantity insert_stock adjust_stock replace_stock
day_reserves = refl

transition-IsConsistent_example :
    IsConsistent (after packed (transition morning ascii packed dispatches))
unfolding transition transition_locked apply_transition apply_action record_event dispatch_order
    ship_units set_status assert_transition transitions lock_order require_mapped map_order
    parse_shoe_size select_one update_where
transition-IsConsistent_example =
    transition-IsConsistent morning ascii packed dispatches packed-IsConsistent refl

dispatch_needs_guide_example :
    (order : Order) × (lock_order packed 1 ≡ ok order)
    × (order.status ≡ confirmed)
    × HasGuide packed 1
unfolding transition transition_locked apply_transition apply_action record_event dispatch_order
    ship_units set_status assert_transition transitions lock_order require_mapped map_order
    parse_shoe_size select_one update_where
dispatch_needs_guide_example = dispatch_needs_guide morning ascii packed dispatches refl refl

confirm_idempotent_example :
    transition evening ascii
      (after summarized (transition morning ascii summarized confirms))
      confirms
    ≡ transition morning ascii summarized confirms
unfolding transition transition_locked apply_transition apply_action record_event confirm_order
    confirmed_summary complete_order assert_selected_quote_policy parse_policy
    has_consistent_carriers all_distinct overlaps all_candidates_offered is_eligible_carrier_quote
    available_stock record_confirmation reserve_stock set_confirmed enqueue_guide_job
    open_confirmed_alert build_snapshot shipping_cost snapshot_quote text_eq exists_row
    assert_transition transitions lock_order require_mapped map_order parse_shoe_size select_one
    update_where
confirm_idempotent_example = confirm_idempotent morning evening ascii summarized confirms refl refl

create-IsConsistent_example : IsConsistent (after drafted (create morning ascii drafted wish))
unfolding create parse_shoe_size validate_order_quantity find_locality normalize_colombian_phone
    national_number is_mobile link_customer resolve_customer_contact match_existing new_order
    insert_order require_mapped map_order select_one update_where exists_row select_all trim
    non_blank is_space text_eq same_text
create-IsConsistent_example =
    create-IsConsistent morning ascii drafted wish drafted-IsConsistent refl

abbrev moved : Db
moved = after drafted (update morning ascii drafted drafted move)

update_touches_draft_example :
    (o o' : Order) × (select_one (is_order 1) drafted.orders ≡ some o)
    × (o.status ≡ draft)
    × SameContact (select_one (is_order 1) drafted.orders) o
    × ((is_anonymized drafted o.customer_id && sets_personal_data move) ≡ false)
    × (select_one (is_order 1) moved.orders ≡ some o')
    × NextVersion o o'
    × (other_orders 1 moved ≡ other_orders 1 drafted)
unfolding update edit_values editable_order store_edit write_edit relink patched same_text
    find_locality require_mapped map_order parse_shoe_size select_one update_where trim non_blank
    is_space text_eq
update_touches_draft_example = update_touches_draft morning ascii drafted drafted move refl

abbrev first_summary : Summary
first_summary = record {
  order_id = 1;
  version = 1;
  draft_version = 1;
  snapshot = build_snapshot pair_of_boots shoe 380 (some quote);
}

create_summary_shows_example :
    (o : Order) × Shown morning ascii drafted drafted 1 o
      (after drafted (create_summary morning ascii drafted drafted 1), first_summary)
unfolding create_summary summarize store_summary check_quote build_snapshot shipping_cost
    snapshot_quote same_text lock_order complete_order assert_selected_quote_policy parse_policy
    has_consistent_carriers all_distinct overlaps all_candidates_offered is_eligible_carrier_quote
    parse_shoe_size select_one update_where exists_row text_eq
create_summary_shows_example = create_summary_shows morning ascii drafted drafted 1 refl

abbrev redirected : Db
redirected = after_write drafted (reuse_destination drafted home)

reuse_touches_draft_example :
    Trusted drafted 4
    × (o o' : Order) × Memᴰ o drafted.orders
    × (o.id ≡ 1)
    × (o.customer_id ≡ some 4)
    × (o.status ≡ draft)
    × Memᴰ o' redirected.orders
    × NextVersion o o'
    × SentTo drafted home o'
    × (other_orders 1 redirected ≡ other_orders 1 drafted)
unfolding reuse_destination reused exists_row text_eq update_where select_one
reuse_touches_draft_example = reuse_touches_draft drafted home refl

set_physical_stock-IsConsistent_example :
    IsConsistent (after_write drafted (set_physical_stock drafted counted))
unfolding set_physical_stock parse_shoe_size validate_quantity replace_stock adjust_stock select_one
    update_where
set_physical_stock-IsConsistent_example =
    set_physical_stock-IsConsistent drafted counted drafted-IsConsistent refl
