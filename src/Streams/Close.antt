-- ===== src/Streams/Close.antt =====
-- `handleCloseConnection` and `handleCloseAllConnections` of connections.go.
pub mod Closes
use libmihomo_android.Base.{String, List, [], ◌∷◌, Option, none, some, Bool, true, false}

-- `statistic.DefaultManager` over its state: the tracker of an id, those that `Range` visits, and `Close`.
pub record Manager (S T : Type 0) : Type 0 where
  pub get : String → S → Option T
  pub trackers : S → List T
  pub close : T → S → S

module _ {S T : Type 0} (manager : Manager S T) where
  unfoldable pub close_found : Option T → S → S × Bool
  close_found none s = (s, false)
  close_found (some t) s = (manager.close t s, true)

  unfoldable pub handle_close_connection : String → S → S × Bool
  unfolding close_found
  handle_close_connection id s = close_found (manager.get id s) s

  -- The visit of the trackers that there are when it starts.
  unfoldable pub close_each : List T → S → S
  close_each [] s = s
  close_each (t ∷ ts) s = close_each ts (manager.close t s)

  unfoldable pub handle_close_all_connections : S → S × Bool
  unfolding close_each
  handle_close_all_connections s = (close_each (manager.trackers s) s, true)
