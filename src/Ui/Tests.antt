-- ===== src/Ui/Tests.antt =====
-- The display with two accounts.
use m5authenticator.Prelude.{
  ◌≡◌, refl, true, false, List, [], ◌∷◌, bytes_eq, codes, saturating_deadline,
}
use m5authenticator.Ui.{
  AccountMetadata, new_ui, has_id, update_accounts, sort_accounts, insert_account, accounts_equal,
  account_equal, select_valid, hide_reveal, select_next, select_id, id_after, reveal,
  selected_account, expire,
}
use m5authenticator.Ui.Steps.{Call, updates, nexts, reveals, expires, step, run, run-new_ui-Inv}
use m5authenticator.Ui.Steps.Selection.{Inv}
use m5authenticator.Ui.Reveal.{run-step-Shows, Shows, InTime}

abbrev first_account : AccountMetadata
first_account = record {
  id = 7;
  order = 1;
  issuer = codes "a";
  account = codes "b";
  display_name = [];
}

abbrev second_account : AccountMetadata
second_account = record {
  id = 3;
  order = 0;
  issuer = codes "c";
  account = codes "d";
  display_name = [];
}

abbrev calls : List Call
calls = updates (first_account ∷ second_account ∷ []) 0 ∷ nexts ∷ reveals 123456 50 ∷ []

run-new_ui-Inv_example : Inv (run calls new_ui)
run-new_ui-Inv_example = run-new_ui-Inv calls

-- The second one is in front; the next one is shown.
shows_first :
    ((run calls new_ui).selected_id ≡ 7)
    × ((run calls new_ui).reveal_active ≡ true)
    × (has_id 0 (run calls new_ui).accounts ≡ false)
unfolding run step update_accounts sort_accounts insert_account accounts_equal account_equal
    select_valid hide_reveal select_next select_id id_after reveal selected_account has_id bytes_eq
shows_first = (refl, refl, refl)

still_shown : (step (expires 60) (run calls new_ui)).reveal_active ≡ true
unfolding step expire run update_accounts sort_accounts insert_account accounts_equal account_equal
    select_valid hide_reveal select_next select_id id_after reveal selected_account has_id bytes_eq
    saturating_deadline
still_shown = refl

run-step-Shows_example :
    Shows (run calls new_ui) (step (expires 60) (run calls new_ui))
    × InTime (expires 60) (run calls new_ui)
run-step-Shows_example =
    run-step-Shows calls (expires 60) shows_first.2 (λ code now_ms e. cc) still_shown
