-- ===== src/FlowEngine/Tests.antt =====
-- The theorems on triggers, conditions, splits and texts at concrete inputs.
use zernflow.Base.{
  ℕ, ◌≤◌, ◌≡◌, ◌⊎◌, refl, inl, none, some, List, [], ◌∷◌, true, false, arith, any, all, All,
}
use mathlib.Core.List.Memᴰ
use zernflow.Base.Json.{decimal, not_a_number, codes}
use zernflow.FlowEngine.Types.{instagram, equals, Condition, SplitPath, QuickReply}
use zernflow.FlowEngine.Interpolate.{is_word, interpolate_variables, interpolate}
use zernflow.FlowEngine.Interpolate.Laws.{token_of, interpolate_differs}
use zernflow.FlowEngine.Conditions.{engine_field, decide}
use zernflow.FlowEngine.Conditions.Simulated.{
  MockContact, simulator_field, simulate_condition, simulate_decide,
}
use zernflow.FlowEngine.Conditions.Laws.{contact_of, simulated, decide-mirrored, decide-parts}
use zernflow.FlowEngine.Split.{split}
use zernflow.FlowEngine.Split.Laws.{IsShare, split-IsShare}
use zernflow.FlowEngine.Messages.Numbered.{parse_numbered_response}
use zernflow.FlowEngine.Messages.Numbered.Laws.{parse_numbered_response-decimal}
use zernflow.Base.Json.{decimal}
use zernflow.FlowEngine.Triggers.{
  Trigger, postback, IncomingMessage, match_trigger, load_triggers, choose_trigger, by_priority,
  insert_trigger, find_payload, find_keyword, find_welcome, find_default,
}
use zernflow.FlowEngine.Triggers.Isolation.{match_trigger-isolated}
use zernflow.FlowEngine.Triggers.Priority.{IsPostback, match_trigger-greatest}

abbrev workspace_wide : Trigger
workspace_wide = record {
  id = 1;
  channel_id = none;
  type = postback;
  is_active = true;
  priority = 2;
  flow_published = true;
  flow_workspace = 7;
  payload = some (codes "BUY");
  keywords = none;
  match_type = none;
}

-- The same for a channel with a greater priority, and for another workspace with the greatest.
abbrev of_the_channel : Trigger
of_the_channel = record workspace_wide { id = 2; channel_id = some 5; priority = 4 }

abbrev foreign : Trigger
foreign = record workspace_wide { id = 3; flow_workspace = 8; priority = 9 }

abbrev rows : List Trigger
rows = workspace_wide ∷ foreign ∷ of_the_channel ∷ []

abbrev message : IncomingMessage
message = record {
  text = some (codes "hi");
  postback_payload = some (codes "BUY");
  quick_reply_payload = none;
}

buy_run : match_trigger (λ t. t) (λ t. t) 5 7 message none 1 rows ≡ some of_the_channel
unfolding match_trigger load_triggers choose_trigger by_priority insert_trigger find_payload
    find_keyword find_welcome find_default
buy_run = refl

match_trigger-isolated_example :
    (of_the_channel.flow_workspace ≡ 7)
    × (of_the_channel.is_active ≡ true)
    × (of_the_channel.flow_published ≡ true)
    × ((of_the_channel.channel_id ≡ none) ⊎ (of_the_channel.channel_id ≡ some 5))
match_trigger-isolated_example =
    match_trigger-isolated (λ t. t) (λ t. t) 5 7 message none 1 rows of_the_channel buy_run

match_trigger-greatest_example :
    (t : Trigger) × (match_trigger (λ t. t) (λ t. t) 5 7 message none 1 rows ≡ some t)
    × IsPostback (codes "BUY") t
    × (2 ≤ t.priority)
match_trigger-greatest_example =
    match_trigger-greatest (λ t. t) (λ t. t) 5 7 66 (codes "UY") message none 1 rows workspace_wide
      refl (Memᴰ.head refl) refl (refl, refl)

abbrev weighted : ℕ → SplitPath
weighted weight = record { name = codes "path"; weight = weight }

split-IsShare_example :
    (p : SplitPath) × (split 1 2 (weighted 1 ∷ weighted 3 ∷ []) ≡ some p)
    × IsShare 1 2 (weighted 1 ∷ weighted 3 ∷ []) p
split-IsShare_example = split-IsShare 1 2 (weighted 1) (weighted 3 ∷ []) (omega arith)

abbrev mock : MockContact
mock = record { tags = some (codes "lead" ∷ []); custom_fields = none; is_subscribed = none }

abbrev conditions : List Condition
conditions =
    record { field = codes "tag:lead"; operator = equals; value = codes "true" }
    ∷ record { field = codes "platform"; operator = equals; value = codes "instagram" }
    ∷ []

decide-mirrored_example :
    decide
      (λ v. not_a_number)
      (engine_field (contact_of 5 mock) (some instagram) [])
      (some (codes "and"))
      conditions
    ≡ some (simulate_decide (λ v. not_a_number) mock [] (some (codes "and")) conditions)
decide-mirrored_example =
    decide-mirrored (λ v. not_a_number) 5 mock [] (codes "and") conditions (λ e. cc)
      (refl, (refl, tt))

-- One condition holds and one does not: without a logic the engine goes on by the one, and the
-- simulator by the other.
abbrev mixed : List Condition
mixed = record { field = codes "platform"; operator = equals; value = codes "x" } ∷ conditions

holds_one : any (simulated (λ v. not_a_number) mock []) mixed ≡ true
unfolding simulate_condition simulator_field
holds_one = refl

holds_not_all : all (simulated (λ v. not_a_number) mock []) mixed ≡ false
unfolding simulate_condition simulator_field
holds_not_all = refl

decide-parts_example :
    (decide (λ v. not_a_number) (engine_field (contact_of 5 mock) (some instagram) []) none mixed
      ≡ some true)
    × (simulate_decide (λ v. not_a_number) mock [] none mixed ≡ false)
decide-parts_example =
    decide-parts (λ v. not_a_number) 5 mock [] mixed (refl, (refl, (refl, tt))) holds_one
      holds_not_all

abbrev options : List QuickReply
options =
    record { title = codes "Yes"; payload = codes "YES" }
    ∷ record { title = codes "No"; payload = codes "NO" }
    ∷ []

parse_numbered_response-decimal_example :
    parse_numbered_response (decimal 2) options ≡ some (codes "NO")
parse_numbered_response-decimal_example = parse_numbered_response-decimal options 1

name_words : All (λ c. is_word c ≡ true) (codes "name")
unfolding is_word
name_words = (refl, (refl, (refl, (refl, tt))))

interpolate_differs_example :
    (interpolate_variables (λ v. []) [] (token_of (codes "name")) ≡ token_of (codes "name"))
    × (interpolate (λ v. []) [] (token_of (codes "name")) ≡ [])
interpolate_differs_example =
    interpolate_differs (λ v. []) (λ v. []) [] b'n' (codes "ame") name_words (inl refl)
