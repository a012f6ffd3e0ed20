-- ===== src/Scene/Data.antt =====
-- The walkthroughs that kb-src/scenes-data.js registers, in its order.
mod Acme
mod Devices
mod Revocation
mod Platform
mod Ari
mod EstLb
mod Cmp
mod Adcs
mod Provision
mod PolicyTree
mod Upstream
mod Discover
mod AuditShip
mod OfflineRoot
mod CodeSign
use certadillo.Prelude.{List, [], ◌∷◌}
use certadillo.Scene.Def.{Scene}
use Acme.{acme}
use Devices.{devices}
use Revocation.{revocation}
use Platform.{platform}
use Ari.{ari}
use EstLb.{estlb}
use Cmp.{cmp}
use Adcs.{adcs}
use Provision.{provision}
use PolicyTree.{policytree}
use Upstream.{upstream}
use Discover.{discover}
use AuditShip.{auditship}
use OfflineRoot.{offlineroot}
use CodeSign.{codesign}

-- `CertadilloScenes.defs` once scenes-data.js has run.
abbrev pub defs : List Scene
defs =
    acme ∷ devices ∷ revocation ∷ platform ∷ ari ∷ estlb ∷ cmp ∷ adcs ∷ provision ∷ policytree
    ∷ upstream ∷ discover ∷ auditship ∷ offlineroot ∷ codesign ∷ []
