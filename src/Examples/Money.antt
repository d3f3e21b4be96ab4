-- ===== src/Examples/Money.antt =====
-- Concrete amounts.
use pdr.Base.{ℤ, pos, arith}
use pdr.Core.Money.{CurrencyCode, Money}
use pdr.Core.Money.Range.{IsInt64}

abbrev roubles : CurrencyCode
roubles = record { first = 82; second = 85; third = 66 }

abbrev amount : ℤ → Money
amount units = record { minor_units = units; currency = roubles }

abbrev most : Money
most = amount (pos 9223372036854775807)

most-IsInt64 : IsInt64 most.minor_units
most-IsInt64 = ground arith

five-IsInt64 : IsInt64 (pos 5)
five-IsInt64 = ground arith
