-- ===== src/StateServer/Messages.antt =====
-- src/core/msgtypes.h: the message types of the state server.
use astron.Base.{ℕ}

abbrev pub create_object_with_required : ℕ
create_object_with_required = 2000

abbrev pub create_object_with_required_other : ℕ
create_object_with_required_other = 2001

abbrev pub delete_ai_objects : ℕ
delete_ai_objects = 2009

abbrev pub object_get_field : ℕ
object_get_field = 2010

abbrev pub object_get_field_resp : ℕ
object_get_field_resp = 2011

abbrev pub object_get_fields : ℕ
object_get_fields = 2012

abbrev pub object_get_fields_resp : ℕ
object_get_fields_resp = 2013

abbrev pub object_get_all : ℕ
object_get_all = 2014

abbrev pub object_get_all_resp : ℕ
object_get_all_resp = 2015

abbrev pub object_set_field : ℕ
object_set_field = 2020

abbrev pub object_set_fields : ℕ
object_set_fields = 2021

abbrev pub object_delete_ram : ℕ
object_delete_ram = 2032

abbrev pub object_set_location : ℕ
object_set_location = 2040

abbrev pub object_changing_location : ℕ
object_changing_location = 2041

abbrev pub object_enter_location_with_required : ℕ
object_enter_location_with_required = 2042

abbrev pub object_enter_location_with_required_other : ℕ
object_enter_location_with_required_other = 2043

abbrev pub object_get_location : ℕ
object_get_location = 2044

abbrev pub object_get_location_resp : ℕ
object_get_location_resp = 2045

abbrev pub object_location_ack : ℕ
object_location_ack = 2046

abbrev pub object_set_ai : ℕ
object_set_ai = 2050

abbrev pub object_changing_ai : ℕ
object_changing_ai = 2051

abbrev pub object_enter_ai_with_required : ℕ
object_enter_ai_with_required = 2052

abbrev pub object_enter_ai_with_required_other : ℕ
object_enter_ai_with_required_other = 2053

abbrev pub object_get_ai : ℕ
object_get_ai = 2054

abbrev pub object_get_ai_resp : ℕ
object_get_ai_resp = 2055

abbrev pub object_set_owner : ℕ
object_set_owner = 2060

abbrev pub object_changing_owner : ℕ
object_changing_owner = 2061

abbrev pub object_enter_owner_with_required : ℕ
object_enter_owner_with_required = 2062

abbrev pub object_enter_owner_with_required_other : ℕ
object_enter_owner_with_required_other = 2063

abbrev pub object_enter_interest_with_required : ℕ
object_enter_interest_with_required = 2066

abbrev pub object_enter_interest_with_required_other : ℕ
object_enter_interest_with_required_other = 2067

abbrev pub object_get_zone_objects : ℕ
object_get_zone_objects = 2100

abbrev pub object_get_zones_objects : ℕ
object_get_zones_objects = 2102

abbrev pub object_get_zones_count_resp : ℕ
object_get_zones_count_resp = 2113

abbrev pub object_delete_children : ℕ
object_delete_children = 2124

abbrev pub get_active_zones : ℕ
get_active_zones = 2125

abbrev pub get_active_zones_resp : ℕ
get_active_zones_resp = 2126

-- STATESERVER_CONTEXT_WAKE_CHILDREN.
abbrev pub context_wake_children : ℕ
context_wake_children = 1001
