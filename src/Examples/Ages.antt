-- ===== src/Examples/Ages.antt =====
-- A student born on the 29th of February comes of age.
use pdr.Base.{◌≡◌, refl, pos, arith}
use pdr.Identity.Ages.{age_at, turns_at, birth_date}
use pdr.Identity.Ages.Birthdays.{has_reached}
use pdr.Identity.Ages.Agree.{IsBirthDate, age_at-turns_at}
use pdr.Identity.Calendar.{is_date}
use pdr.Core.Time.{not_after}
use pdr.Examples.People.{born, new_year}

born-IsBirthDate : IsBirthDate born
unfolding birth_date is_date
born-IsBirthDate = refl

age_at-turns_at_example :
    has_reached (age_at born new_year) (pos 12) ≡ not_after (turns_at born (pos 12)) new_year
age_at-turns_at_example = age_at-turns_at born 12 new_year born-IsBirthDate (omega arith)
