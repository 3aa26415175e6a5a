-- ===== src/Instructions/Text.antt =====
-- The texts that the SDK hashes for a discriminator or gives as a seed of an address, as bytes.
use kirite.Prelude.{[], ◌∷◌}
use kirite.Bytes.{Bytes}

-- "global:"
abbrev pub global : Bytes
global = 103 ∷ 108 ∷ 111 ∷ 98 ∷ 97 ∷ 108 ∷ 58 ∷ []

-- "initialize_protocol"
abbrev pub initialize_protocol : Bytes
initialize_protocol =
    105 ∷ 110 ∷ 105 ∷ 116 ∷ 105 ∷ 97 ∷ 108 ∷ 105 ∷ 122 ∷ 101 ∷ 95 ∷ 112 ∷ 114 ∷ 111 ∷ 116 ∷ 111 ∷ 99
    ∷ 111 ∷ 108 ∷ []

-- "initialize_shield_pool"
abbrev pub initialize_shield_pool : Bytes
initialize_shield_pool =
    105 ∷ 110 ∷ 105 ∷ 116 ∷ 105 ∷ 97 ∷ 108 ∷ 105 ∷ 122 ∷ 101 ∷ 95 ∷ 115 ∷ 104 ∷ 105 ∷ 101 ∷ 108
    ∷ 100 ∷ 95 ∷ 112 ∷ 111 ∷ 111 ∷ 108 ∷ []

-- "deposit"
abbrev pub deposit : Bytes
deposit = 100 ∷ 101 ∷ 112 ∷ 111 ∷ 115 ∷ 105 ∷ 116 ∷ []

-- "withdraw"
abbrev pub withdraw : Bytes
withdraw = 119 ∷ 105 ∷ 116 ∷ 104 ∷ 100 ∷ 114 ∷ 97 ∷ 119 ∷ []

-- "initialize"
abbrev pub initialize : Bytes
initialize = 105 ∷ 110 ∷ 105 ∷ 116 ∷ 105 ∷ 97 ∷ 108 ∷ 105 ∷ 122 ∷ 101 ∷ []

-- "stake"
abbrev pub stake : Bytes
stake = 115 ∷ 116 ∷ 97 ∷ 107 ∷ 101 ∷ []

-- "claim"
abbrev pub claim : Bytes
claim = 99 ∷ 108 ∷ 97 ∷ 105 ∷ 109 ∷ []

-- "unstake"
abbrev pub unstake : Bytes
unstake = 117 ∷ 110 ∷ 115 ∷ 116 ∷ 97 ∷ 107 ∷ 101 ∷ []

-- "protocol_config"
abbrev pub protocol_config : Bytes
protocol_config =
    112 ∷ 114 ∷ 111 ∷ 116 ∷ 111 ∷ 99 ∷ 111 ∷ 108 ∷ 95 ∷ 99 ∷ 111 ∷ 110 ∷ 102 ∷ 105 ∷ 103 ∷ []

-- "governance"
abbrev pub governance : Bytes
governance = 103 ∷ 111 ∷ 118 ∷ 101 ∷ 114 ∷ 110 ∷ 97 ∷ 110 ∷ 99 ∷ 101 ∷ []

-- "shield_pool"
abbrev pub shield_pool : Bytes
shield_pool = 115 ∷ 104 ∷ 105 ∷ 101 ∷ 108 ∷ 100 ∷ 95 ∷ 112 ∷ 111 ∷ 111 ∷ 108 ∷ []

-- "vault_authority"
abbrev pub vault_authority : Bytes
vault_authority =
    118 ∷ 97 ∷ 117 ∷ 108 ∷ 116 ∷ 95 ∷ 97 ∷ 117 ∷ 116 ∷ 104 ∷ 111 ∷ 114 ∷ 105 ∷ 116 ∷ 121 ∷ []

-- "nullifier"
abbrev pub nullifier : Bytes
nullifier = 110 ∷ 117 ∷ 108 ∷ 108 ∷ 105 ∷ 102 ∷ 105 ∷ 101 ∷ 114 ∷ []

-- "staking_pool"
abbrev pub staking_pool : Bytes
staking_pool = 115 ∷ 116 ∷ 97 ∷ 107 ∷ 105 ∷ 110 ∷ 103 ∷ 95 ∷ 112 ∷ 111 ∷ 111 ∷ 108 ∷ []

-- "fee_vault"
abbrev pub fee_vault : Bytes
fee_vault = 102 ∷ 101 ∷ 101 ∷ 95 ∷ 118 ∷ 97 ∷ 117 ∷ 108 ∷ 116 ∷ []

-- "stake_account"
abbrev pub stake_account : Bytes
stake_account = 115 ∷ 116 ∷ 97 ∷ 107 ∷ 101 ∷ 95 ∷ 97 ∷ 99 ∷ 99 ∷ 111 ∷ 117 ∷ 110 ∷ 116 ∷ []
