-- ===== src/Lua/Tests.antt =====
-- Runs of `tostring` and `tonumber`.
use auctioneer.Base.{◌≡◌, refl, none, some, pos, negsuc, arith}
use auctioneer.Text.{codes}
use auctioneer.Text.Decimal.{digits}
use auctioneer.Text.Parse.{parse_int64}
use auctioneer.Lua.Numbers.{parse_int64-tostring_large}
use auctioneer.Lua.{print_number, scientific, tostring, tonumber}

print_exact : tostring (some (pos 99999999999999)) ≡ codes "99999999999999"
unfolding tostring print_number scientific digits
print_exact = refl

print_rounded :
    (tostring (some (pos 100000000000000)) ≡ codes "1e+14")
    × (tostring (some (pos 123456789012345678)) ≡ codes "1.2345678901235e+17")
    × (tostring (some (pos 999999999999999)) ≡ codes "1e+15")
    × (tostring (some (negsuc 122)) ≡ codes "-123")
unfolding tostring print_number scientific digits
print_rounded = (refl, refl, refl, refl)

read_back :
    (tonumber (codes "1.2345678901235e+17") ≡ some (pos 123456789012350000))
    × (tonumber (codes "-150") ≡ some (negsuc 149))
    × (tonumber (codes "9007199254740993") ≡ some (pos 9007199254740992))
    × (tonumber (codes "nil") ≡ none)
unfolding tonumber
read_back = (refl, refl, refl, refl)

parse_int64-tostring_large_example : parse_int64 (tostring (some (pos 150000000000000))) ≡ pos 0
parse_int64-tostring_large_example = parse_int64-tostring_large 150000000000000 (omega arith)
