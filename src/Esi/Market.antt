-- ===== src/Esi/Market.antt =====
-- The entries of esi.py that are not cached as lists: prices, orders and colonies.
use aobp.Prelude.{String, string_eq}
use aobp.Result.{Result, ok, ◌>>=◌}
use aobp.Dict.{Dict}
use aobp.Esi.Entries.{Json, item, optional}

pub record MarketPriceEntry : Type 0 where
  pub type_id : Json
  pub adjusted_price : Json
  pub average_price : Json

-- One entry of ESI's answer.
unfoldable pub market_price_entry : Dict String Json → Result MarketPriceEntry
unfolding item
market_price_entry entry = do
  type_id_ ← item "type_id" entry
  let adjusted_price_ = optional "adjusted_price" entry
  let average_price_ = optional "average_price" entry
  ok (record {
    type_id = type_id_;
    adjusted_price = adjusted_price_;
    average_price = average_price_;
  })

pub record MarketOrderEntry : Type 0 where
  pub order_id : Json
  pub type_id : Json
  pub location_id : Json
  pub is_buy_order : Json
  pub price : Json
  pub volume_remain : Json
  pub volume_total : Json
  pub min_volume : Json
  pub duration : Json
  pub issued : Json
  pub range : Json

-- One entry of ESI's answer.
unfoldable pub market_order_entry : Dict String Json → Result MarketOrderEntry
unfolding item
market_order_entry entry = do
  order_id_ ← item "order_id" entry
  type_id_ ← item "type_id" entry
  location_id_ ← item "location_id" entry
  is_buy_order_ ← item "is_buy_order" entry
  price_ ← item "price" entry
  volume_remain_ ← item "volume_remain" entry
  volume_total_ ← item "volume_total" entry
  min_volume_ ← item "min_volume" entry
  duration_ ← item "duration" entry
  issued_ ← item "issued" entry
  range_ ← item "range" entry
  ok (record {
    order_id = order_id_;
    type_id = type_id_;
    location_id = location_id_;
    is_buy_order = is_buy_order_;
    price = price_;
    volume_remain = volume_remain_;
    volume_total = volume_total_;
    min_volume = min_volume_;
    duration = duration_;
    issued = issued_;
    range = range_;
  })

pub record ColonyEntry : Type 0 where
  pub planet_id : Json
  pub solar_system_id : Json
  pub planet_type : Json
  pub owner_id : Json
  pub last_update : Json
  pub upgrade_level : Json
  pub num_pins : Json

-- One entry of ESI's answer.
unfoldable pub colony_entry : Dict String Json → Result ColonyEntry
unfolding item
colony_entry entry = do
  planet_id_ ← item "planet_id" entry
  solar_system_id_ ← item "solar_system_id" entry
  planet_type_ ← item "planet_type" entry
  owner_id_ ← item "owner_id" entry
  last_update_ ← item "last_update" entry
  upgrade_level_ ← item "upgrade_level" entry
  num_pins_ ← item "num_pins" entry
  ok (record {
    planet_id = planet_id_;
    solar_system_id = solar_system_id_;
    planet_type = planet_type_;
    owner_id = owner_id_;
    last_update = last_update_;
    upgrade_level = upgrade_level_;
    num_pins = num_pins_;
  })
