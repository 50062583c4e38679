-- ===== src/Planetary/Pages/Floors.antt =====
-- The page of a schematic has a row for every tier below its own.
use aobp.Prelude.{nat_eq}
use aobp.Dict.{Dict}
