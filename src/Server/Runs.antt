-- ===== src/Server/Runs.antt =====
-- The server's installs on concrete connections.
use my_quic.Common.{◌+◌, ◌≡◌, refl, true, false, none, some, [], ◌∷◌, arith}
use my_quic.Common.Assoc.{lookup}
use my_quic.Mqp.Addr.{SocketAddr, v4, ip}
use my_quic.Mqp.Wire.{rev3}
use my_quic.Mqp.Flow.Binding.{Store, new_cell}
use my_quic.Mqp.Flow.Registry
use my_quic.Mqp.Flow.Registry.{World}
use my_quic.Mqp.Flow.Registry.Steps
use my_quic.Mqp.Flow.Registry.Steps.{connect, Sound}
use my_quic.Mqp.Flow.Registry.Sound.{Reach-Sound}
use my_quic.Mqp.Flow.Session
use my_quic.Mqp.Flow.Session.{SessionFlows, is_full}
use my_quic.Server.Install.{start_open, r2_install, install_unsolicited}
use my_quic.Server.Install.Opened
use my_quic.Server.Install.Opened.{r2_install-Outcome}
use my_quic.Server.Install.Unsolicited.{
  InstalledOk, install_unsolicited-Outcome, install_unsolicited_spends,
}

abbrev source : SocketAddr
source = v4 (10 ∷ 0 ∷ 0 ∷ 1 ∷ []) 53

abbrev no_cells : Store
no_cells = record { fresh = 0; cells = λ p. new_cell }

abbrev idle_world : World
idle_world = connect 4096 true no_cells

idle-Sound : Sound idle_world
idle-Sound = Reach-Sound 4096 true no_cells (omega arith) Steps.here

absent : lookup 2 idle_world.reg.map ≡ none
unfolding lookup Registry.new
absent = refl

r2_install-Outcome_example :
    (let r = r2_install (some Session.new) Session.new 7 2 (ip source) (source ∷ []) idle_world in
      Opened.Outcome idle_world.reg Session.new 2 7
        (ip source)
        (start_open (source ∷ []) new_cell)
        r.flows
        r.world
        r.answer)
r2_install-Outcome_example =
    r2_install-Outcome (some Session.new) Session.new 7 2 (ip source) (source ∷ []) idle_world
      idle-Sound.consistent idle-Sound.small absent

install_unsolicited-Outcome_example :
    InstalledOk 7 source Session.new idle_world
      (install_unsolicited rev3 7 source Session.new Session.new idle_world)
install_unsolicited-Outcome_example =
    install_unsolicited-Outcome rev3 7 source Session.new Session.new idle_world idle-Sound

-- All 8192 flow ids were handed out.
abbrev used_world : World
used_world = record idle_world { ids = record { next = 8192; server_owned = true } }

has_slots : is_full used_world.store Session.new ≡ false
unfolding is_full
has_slots = refl

install_unsolicited_spends_example :
    ((install_unsolicited rev3 7 source Session.new Session.new used_world).answer ≡ none)
    × ((install_unsolicited rev3 7 source Session.new Session.new used_world).world.ids.next
        ≡ used_world.ids.next + 1)
unfolding Registry.new
install_unsolicited_spends_example =
    install_unsolicited_spends 7 source Session.new Session.new used_world has_slots (omega arith)
      (omega arith) (omega arith)
