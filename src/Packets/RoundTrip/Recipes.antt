-- ===== src/Packets/RoundTrip/Recipes.antt =====
-- cubic-server/protocol/ServerPackets.cpp: what each parser reads of a packet in the wire format:
-- recipes, advancements, trades and beacons.
use cubic_server.Common.{ℕ, ◌^◌, ◌<◌, ◌≡◌, ◌∙◌, ◌==◌, List, [], ok}
use cubic_server.Protocol.Pop.{pop_byte, pop_boolean, pop_var_int, pop_string}
use cubic_server.Packets.Wire.{
  FitsOptional, FitsString, boolean_read, byte_read, optional_read, put_boolean, put_byte,
  put_optional, put_string, put_var_int, string_read, var_int_read,
}
use cubic_server.Packets.Parsed.{field_ok, optional}
use cubic_server.Packets.Items.{
  PlaceRecipe, ChangeRecipeBookSettings, SetSeenRecipe, RenameItem, SeenAdvancements, SelectTrade,
  SetBeaconEffect, parse_place_recipe, parse_change_recipe_book_settings, parse_set_seen_recipe,
  parse_rename_item, parse_seen_advancements, parse_select_trade, parse_set_beacon_effect,
}

abbrev pub put_place_recipe : PlaceRecipe → List ℕ → List ℕ
put_place_recipe p rest = put_byte p.window_id (put_string p.recipe (put_boolean p.make_all rest))

abbrev pub FitsPlaceRecipe : PlaceRecipe → Type 0
FitsPlaceRecipe p = FitsString p.recipe

pub place_recipe_read :
    (p : PlaceRecipe) (rest : List ℕ)
    → FitsPlaceRecipe p
    → parse_place_recipe (put_place_recipe p rest) ≡ ok p
unfolding parse_place_recipe
place_recipe_read p rest h0 =
    field_ok pop_byte _ _ (byte_read p.window_id _)
    ∙ field_ok pop_string _ _ (string_read p.recipe _ h0)
    ∙ field_ok pop_boolean _ _ (boolean_read p.make_all _)

abbrev pub put_change_recipe_book_settings : ChangeRecipeBookSettings → List ℕ → List ℕ
put_change_recipe_book_settings p rest =
    put_var_int p.book_id (put_boolean p.book_open (put_boolean p.filter_active rest))

abbrev pub FitsChangeRecipeBookSettings : ChangeRecipeBookSettings → Type 0
FitsChangeRecipeBookSettings p = (p.book_id < 2 ^ 32)

pub change_recipe_book_settings_read :
    (p : ChangeRecipeBookSettings) (rest : List ℕ)
    → FitsChangeRecipeBookSettings p
    → parse_change_recipe_book_settings (put_change_recipe_book_settings p rest) ≡ ok p
unfolding parse_change_recipe_book_settings
change_recipe_book_settings_read p rest h0 =
    field_ok pop_var_int _ _ (var_int_read p.book_id _ h0)
    ∙ field_ok pop_boolean _ _ (boolean_read p.book_open _)
    ∙ field_ok pop_boolean _ _ (boolean_read p.filter_active _)

abbrev pub put_set_seen_recipe : SetSeenRecipe → List ℕ → List ℕ
put_set_seen_recipe p rest = put_string p.recipe_id rest

abbrev pub FitsSetSeenRecipe : SetSeenRecipe → Type 0
FitsSetSeenRecipe p = FitsString p.recipe_id

pub set_seen_recipe_read :
    (p : SetSeenRecipe) (rest : List ℕ)
    → FitsSetSeenRecipe p
    → parse_set_seen_recipe (put_set_seen_recipe p rest) ≡ ok p
unfolding parse_set_seen_recipe
set_seen_recipe_read p rest h0 = field_ok pop_string _ _ (string_read p.recipe_id _ h0)

abbrev pub put_rename_item : RenameItem → List ℕ → List ℕ
put_rename_item p rest = put_string p.item_name rest

abbrev pub FitsRenameItem : RenameItem → Type 0
FitsRenameItem p = FitsString p.item_name

pub rename_item_read :
    (p : RenameItem) (rest : List ℕ)
    → FitsRenameItem p
    → parse_rename_item (put_rename_item p rest) ≡ ok p
unfolding parse_rename_item
rename_item_read p rest h0 = field_ok pop_string _ _ (string_read p.item_name _ h0)

abbrev pub put_seen_advancements : SeenAdvancements → List ℕ → List ℕ
put_seen_advancements p rest =
    put_var_int p.action (put_optional (p.action == 0) put_string p.tab_id rest)

abbrev pub FitsSeenAdvancements : SeenAdvancements → Type 0
FitsSeenAdvancements p = (p.action < 2 ^ 32) × FitsOptional (p.action == 0) FitsString p.tab_id []

pub seen_advancements_read :
    (p : SeenAdvancements) (rest : List ℕ)
    → FitsSeenAdvancements p
    → parse_seen_advancements (put_seen_advancements p rest) ≡ ok p
unfolding parse_seen_advancements
seen_advancements_read p rest (h0, h1) =
    field_ok pop_var_int _ _ (var_int_read p.action _ h0)
    ∙ field_ok (optional (p.action == 0) pop_string []) _ _ (
        optional_read (p.action == 0) pop_string put_string FitsString [] p.tab_id _ string_read h1)

abbrev pub put_select_trade : SelectTrade → List ℕ → List ℕ
put_select_trade p rest = put_var_int p.selected_slot rest

abbrev pub FitsSelectTrade : SelectTrade → Type 0
FitsSelectTrade p = (p.selected_slot < 2 ^ 32)

pub select_trade_read :
    (p : SelectTrade) (rest : List ℕ)
    → FitsSelectTrade p
    → parse_select_trade (put_select_trade p rest) ≡ ok p
unfolding parse_select_trade
select_trade_read p rest h0 = field_ok pop_var_int _ _ (var_int_read p.selected_slot _ h0)

abbrev pub put_set_beacon_effect : SetBeaconEffect → List ℕ → List ℕ
put_set_beacon_effect p rest = put_boolean p.primary_effect_present (
    put_var_int p.primary_effect
      (put_boolean p.secondary_effect_present (put_var_int p.secondary_effect rest)))

abbrev pub FitsSetBeaconEffect : SetBeaconEffect → Type 0
FitsSetBeaconEffect p = (p.primary_effect < 2 ^ 32) × (p.secondary_effect < 2 ^ 32)

pub set_beacon_effect_read :
    (p : SetBeaconEffect) (rest : List ℕ)
    → FitsSetBeaconEffect p
    → parse_set_beacon_effect (put_set_beacon_effect p rest) ≡ ok p
unfolding parse_set_beacon_effect
set_beacon_effect_read p rest (h0, h1) =
    field_ok pop_boolean _ _ (boolean_read p.primary_effect_present _)
    ∙ field_ok pop_var_int _ _ (var_int_read p.primary_effect _ h0)
    ∙ field_ok pop_boolean _ _ (boolean_read p.secondary_effect_present _)
    ∙ field_ok pop_var_int _ _ (var_int_read p.secondary_effect _ h1)
