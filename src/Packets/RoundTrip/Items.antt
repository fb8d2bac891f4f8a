-- ===== src/Packets/RoundTrip/Items.antt =====
-- cubic-server/protocol/ServerPackets.cpp: what each parser reads of a packet in the wire format:
-- containers, slots and books.
use cubic_server.Common.{ℕ, ◌^◌, ◌<◌, ◌≡◌, ◌∙◌, List, [], ok}
use cubic_server.Protocol.Cursor.{bind_ok}
use cubic_server.Protocol.Pop.{
  pop_byte, pop_boolean, pop_short, pop_var_int, pop_string, pop_slot, pop_array,
}
use cubic_server.Packets.Wire.{
  FitsArray, FitsOptional, FitsSlot, FitsString, Reads, array_read, boolean_read, byte_read,
  optional_read, put_array, put_boolean, put_byte, put_optional, put_short, put_slot, put_string,
  put_var_int, short_read, slot_read, string_array_read, string_read, var_int_read,
}
use cubic_server.Packets.Parsed.{field_ok, optional}
use cubic_server.Packets.Items.{
  SlotWithIndex, pop_slot_with_index, ClickContainerButton, ClickContainer, CloseContainerRequest,
  EditBook, PickItem, SetHeldItem, SetCreativeModeSlot, parse_click_container_button,
  parse_click_container, parse_close_container_request, parse_edit_book, parse_pick_item,
  parse_set_held_item, parse_set_creative_mode_slot,
}

-- What the format sends for each structure, and which values it can send.
abbrev pub put_slot_with_index : SlotWithIndex → List ℕ → List ℕ
put_slot_with_index a rest = put_short a.slot_number (put_slot a.slot_data rest)

abbrev pub FitsSlotWithIndex : SlotWithIndex → Type 0
FitsSlotWithIndex a = (a.slot_number < 2 ^ 16) × FitsSlot a.slot_data

slot_with_index_read : Reads pop_slot_with_index put_slot_with_index FitsSlotWithIndex
unfolding pop_slot_with_index
slot_with_index_read a rest (h0, h1) =
    bind_ok pop_short _ _ (short_read a.slot_number _ h0)
    ∙ bind_ok pop_slot _ _ (slot_read a.slot_data _ h1)

abbrev pub put_slots_with_index : List SlotWithIndex → List ℕ → List ℕ
put_slots_with_index = put_array put_slot_with_index

abbrev pub FitsSlotsWithIndex : List SlotWithIndex → Type 0
FitsSlotsWithIndex = FitsArray FitsSlotWithIndex

slots_with_index_read :
    Reads (pop_array pop_slot_with_index) put_slots_with_index FitsSlotsWithIndex
slots_with_index_read =
    array_read pop_slot_with_index put_slot_with_index FitsSlotWithIndex slot_with_index_read

abbrev pub put_click_container_button : ClickContainerButton → List ℕ → List ℕ
put_click_container_button p rest = put_byte p.window_id (put_byte p.button_id rest)

pub click_container_button_read :
    (p : ClickContainerButton) (rest : List ℕ)
    → parse_click_container_button (put_click_container_button p rest) ≡ ok p
unfolding parse_click_container_button
click_container_button_read p rest =
    field_ok pop_byte _ _ (byte_read p.window_id _)
    ∙ field_ok pop_byte _ _ (byte_read p.button_id _)

abbrev pub put_click_container : ClickContainer → List ℕ → List ℕ
put_click_container p rest = put_byte p.window_id (
    put_var_int p.state_id (
      put_short p.slot (
        put_byte p.button (
          put_var_int p.mode
            (put_slots_with_index p.array_of_slots (put_slot p.carried_item rest))))))

abbrev pub FitsClickContainer : ClickContainer → Type 0
FitsClickContainer p =
    (p.state_id < 2 ^ 32)
    × (p.slot < 2 ^ 16)
    × (p.mode < 2 ^ 32)
    × FitsSlotsWithIndex p.array_of_slots
    × FitsSlot p.carried_item

pub click_container_read :
    (p : ClickContainer) (rest : List ℕ)
    → FitsClickContainer p
    → parse_click_container (put_click_container p rest) ≡ ok p
unfolding parse_click_container
click_container_read p rest (h0, h1, h2, h3, h4) =
    field_ok pop_byte _ _ (byte_read p.window_id _)
    ∙ field_ok pop_var_int _ _ (var_int_read p.state_id _ h0)
    ∙ field_ok pop_short _ _ (short_read p.slot _ h1)
    ∙ field_ok pop_byte _ _ (byte_read p.button _)
    ∙ field_ok pop_var_int _ _ (var_int_read p.mode _ h2)
    ∙ field_ok (pop_array pop_slot_with_index) _ _ (slots_with_index_read p.array_of_slots _ h3)
    ∙ field_ok pop_slot _ _ (slot_read p.carried_item _ h4)

abbrev pub put_close_container_request : CloseContainerRequest → List ℕ → List ℕ
put_close_container_request p rest = put_byte p.window_id rest

pub close_container_request_read :
    (p : CloseContainerRequest) (rest : List ℕ)
    → parse_close_container_request (put_close_container_request p rest) ≡ ok p
unfolding parse_close_container_request
close_container_request_read p rest = field_ok pop_byte _ _ (byte_read p.window_id _)

abbrev pub put_edit_book : EditBook → List ℕ → List ℕ
put_edit_book p rest = put_var_int p.slot (
    put_array put_string p.entries
      (put_boolean p.has_title (put_optional p.has_title put_string p.title rest)))

abbrev pub FitsEditBook : EditBook → Type 0
FitsEditBook p =
    (p.slot < 2 ^ 32)
    × FitsArray FitsString p.entries
    × FitsOptional p.has_title FitsString p.title []

pub edit_book_read :
    (p : EditBook) (rest : List ℕ) → FitsEditBook p → parse_edit_book (put_edit_book p rest) ≡ ok p
unfolding parse_edit_book
edit_book_read p rest (h0, h1, h2) =
    field_ok pop_var_int _ _ (var_int_read p.slot _ h0)
    ∙ field_ok (pop_array pop_string) _ _ (string_array_read p.entries _ h1)
    ∙ field_ok pop_boolean _ _ (boolean_read p.has_title _)
    ∙ field_ok (optional p.has_title pop_string []) _ _
        (optional_read p.has_title pop_string put_string FitsString [] p.title _ string_read h2)

abbrev pub put_pick_item : PickItem → List ℕ → List ℕ
put_pick_item p rest = put_var_int p.slot_to_use rest

abbrev pub FitsPickItem : PickItem → Type 0
FitsPickItem p = (p.slot_to_use < 2 ^ 32)

pub pick_item_read :
    (p : PickItem) (rest : List ℕ) → FitsPickItem p → parse_pick_item (put_pick_item p rest) ≡ ok p
unfolding parse_pick_item
pick_item_read p rest h0 = field_ok pop_var_int _ _ (var_int_read p.slot_to_use _ h0)

abbrev pub put_set_held_item : SetHeldItem → List ℕ → List ℕ
put_set_held_item p rest = put_short p.slot rest

abbrev pub FitsSetHeldItem : SetHeldItem → Type 0
FitsSetHeldItem p = (p.slot < 2 ^ 16)

pub set_held_item_read :
    (p : SetHeldItem) (rest : List ℕ)
    → FitsSetHeldItem p
    → parse_set_held_item (put_set_held_item p rest) ≡ ok p
unfolding parse_set_held_item
set_held_item_read p rest h0 = field_ok pop_short _ _ (short_read p.slot _ h0)

abbrev pub put_set_creative_mode_slot : SetCreativeModeSlot → List ℕ → List ℕ
put_set_creative_mode_slot p rest = put_short p.slot (put_slot p.clicked_item rest)

abbrev pub FitsSetCreativeModeSlot : SetCreativeModeSlot → Type 0
FitsSetCreativeModeSlot p = (p.slot < 2 ^ 16) × FitsSlot p.clicked_item

pub set_creative_mode_slot_read :
    (p : SetCreativeModeSlot) (rest : List ℕ)
    → FitsSetCreativeModeSlot p
    → parse_set_creative_mode_slot (put_set_creative_mode_slot p rest) ≡ ok p
unfolding parse_set_creative_mode_slot
set_creative_mode_slot_read p rest (h0, h1) =
    field_ok pop_short _ _ (short_read p.slot _ h0)
    ∙ field_ok pop_slot _ _ (slot_read p.clicked_item _ h1)
