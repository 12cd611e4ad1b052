-- ===== src/Loader/Shims/Tests.antt =====
-- Two providers that both give a symbol named "a".
use kobox.Prelude.{List, Option, [], none, refl, same_text, some, take, ℕ, ◌∷◌, ◌≡◌}
use kobox.Loader.Shims.{LinuxSymbol, no_shims, has_name, shim_find_address}
use kobox.Loader.Shims.Built.{all_symbols}
use kobox.Loader.Shims.Lookup.{first_address, after_lookups, shim_find_address-eq-first_address}

abbrev symbol : List ℕ → ℕ → LinuxSymbol
symbol name address = record { name = some name; address = address }

abbrev providers : List (Option (List LinuxSymbol))
providers =
    some (symbol (97 ∷ []) 4096 ∷ symbol (98 ∷ []) 8192 ∷ [])
    ∷ none
    ∷ some (symbol (97 ∷ []) 12288 ∷ symbol (99 ∷ []) 16384 ∷ [])
    ∷ []

shim_find_address-eq-first_address_example :
    (shim_find_address providers (after_lookups providers ((98 ∷ []) ∷ []) no_shims) (97 ∷ [])).0
    ≡ first_address (take 4096 (all_symbols providers)) (97 ∷ [])
shim_find_address-eq-first_address_example =
    shim_find_address-eq-first_address providers ((98 ∷ []) ∷ []) (97 ∷ [])

found_first : first_address (take 4096 (all_symbols providers)) (97 ∷ []) ≡ 4096
unfolding first_address all_symbols has_name same_text
found_first = refl
