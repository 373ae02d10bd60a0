-- ===== src/Poller.antt =====
-- internal/controller/glideinmanager_client.go: a poller for one Glidein Manager. This file has its
-- data and the two goroutines that it starts; the module Checks has what a tick does, and Watchers
-- has the map of all pollers.
pub mod Checks
pub mod Lifecycle
pub mod Progress
pub mod Isolation
pub mod Handshake
use gmos_k8s_operator.Prelude.{ℕ, suc, String, ◌≡◌, Bool, true, false, ◌||◌, [], if◌then◌else◌}
use gmos_k8s_operator.Dict
use gmos_k8s_operator.Dict.{Dict}

-- A *time.Ticker: nil, running, or stopped.
pub data Ticker : Type 0 where
  unset ticking stopped : Ticker

unfoldable pub is_set : Ticker → Bool
is_set unset = false
is_set ticking = true
is_set stopped = true

unfoldable pub stop : Ticker → Ticker
stop unset = unset
stop ticking = stopped
stop stopped = stopped

-- The tickers of a poller, its goroutines that still run, and the sends on `doneChan` that wait
-- for a receiver: the channel has no buffer.
pub record Loops : Type 0 where
  pub data_update_ticker : Ticker
  pub refresh_ticker : Ticker
  pub data_loop : Bool
  pub refresh_loop : Bool
  pub senders : ℕ

abbrev pub no_loops : Loops
no_loops = record {
  data_update_ticker = unset;
  refresh_ticker = unset;
  data_loop = false;
  refresh_loop = false;
  senders = 0;
}

unfoldable pub start_polling : Loops → Loops
unfolding is_set
start_polling l = if is_set l.data_update_ticker || is_set l.refresh_ticker then l else record l {
  data_update_ticker = ticking;
  refresh_ticker = ticking;
  data_loop = true;
  refresh_loop = true;
}

unfoldable pub stop_polling : Loops → Loops
unfolding is_set stop
stop_polling l = record l {
  data_update_ticker = stop l.data_update_ticker;
  refresh_ticker = stop l.refresh_ticker;
  senders =
      if is_set l.refresh_ticker || is_set l.data_update_ticker then suc l.senders else l.senders;
}

-- What the goroutines do: either may take a value from `doneChan`, and the refresh loop ends by
-- itself when a handshake fails. A tick changes nothing here.
pub data LoopStep : Loops → Loops → Type 0 where
  data_done :
      (l : Loops) (n : ℕ)
      → l.data_loop ≡ true
      → l.senders ≡ suc n
      → LoopStep l (record l { data_loop = false; senders = n })
  refresh_done :
      (l : Loops) (n : ℕ)
      → l.refresh_loop ≡ true
      → l.senders ≡ suc n
      → LoopStep l (record l { refresh_loop = false; senders = n })
  handshake_failed :
      (l : Loops) → l.refresh_loop ≡ true → LoopStep l (record l { refresh_loop = false })

pub data LoopSteps (l : Loops) : Loops → Type 0 where
  here : LoopSteps l l
  next : {m n : Loops} → LoopSteps l m → LoopStep m n → LoopSteps l n

-- `H` is the type of update handlers.
pub record GlideinManagerPoller (H : Type 0) : Type 0 where
  pub update_handlers : Dict H
  -- the fields of the client
  pub host_name : String
  pub manager_url : String
  pub work_dir : String
  pub loops : Loops

module _ {H : Type 0} where
  unfoldable pub new_glidein_manager_poller : String → String → GlideinManagerPoller H
  new_glidein_manager_poller client_name manager_url = record {
    update_handlers = [];
    host_name = client_name;
    manager_url = manager_url;
    work_dir = "/tmp";
    loops = no_loops;
  }

  unfoldable pub has_update_handler_for_resource : String → GlideinManagerPoller H → Bool
  has_update_handler_for_resource resource poller = Dict.has_key resource poller.update_handlers

  unfoldable pub set_update_handler : String → H → GlideinManagerPoller H → GlideinManagerPoller H
  set_update_handler resource handler poller = record poller {
    update_handlers = Dict.insert resource handler poller.update_handlers;
  }

  unfoldable pub remove_update_handler : String → GlideinManagerPoller H → GlideinManagerPoller H
  remove_update_handler resource poller = record poller {
    update_handlers = Dict.erase resource poller.update_handlers;
  }
