-- ===== src/Alias/Tests.antt =====
-- Concrete short names and the theorem at one.
use mathlib.Core.List.{reverse, reverse_perm}
use pucora_ce.Base.{◌≡◌, refl, [], some}
use pucora_ce.Base.Dict.{lookup, insert}
use pucora_ce.Alias.Defs.{aliases, register_aliases}
use pucora_ce.Alias.Refines.{register_aliases-resolution}

tiered :
    lookup "qos/ratelimit/tiered" (register_aliases aliases [])
    ≡ some "github.com/pucora/pucora-ratelimit/v3"
unfolding lookup register_aliases insert
tiered = refl

register_aliases-resolution_example :
    lookup "plugin/req-resp-modifier" (register_aliases (reverse aliases) [])
    ≡ some "github.com/pucora/pucora/proxy/plugin"
unfolding lookup
register_aliases-resolution_example =
    register_aliases-resolution (reverse aliases) [] "plugin/req-resp-modifier"
      (reverse_perm aliases)
