-- ===== src/Streams/Close/Closes.antt =====
-- What the calls leave closed.
use libmihomo_android.Base.{String, List, [], ◌∷◌, some, Bool, true, ◌≡◌, ap, ◌∙◌}
use libmihomo_android.Streams.Close.{
  Manager, close_found, handle_close_connection, close_each, handle_close_all_connections,
}

-- `Close` of a tracker closes it, and opens no other.
pub record Closing {S T : Type 0} (manager : Manager S T) : Type 0 where
  pub is_closed : T → S → Bool
  pub closes : (t : T) (s : S) → is_closed t (manager.close t s) ≡ true
  pub keeps : (t u : T) (s : S) → is_closed t s ≡ true → is_closed t (manager.close u s) ≡ true

module _ {S T : Type 0} (manager : Manager S T) (law : Closing manager) where
  abbrev pub AllClosed : List T → S → Type 0
  AllClosed [] s = Unit
  AllClosed (t ∷ ts) s = (law.is_closed t s ≡ true) × AllClosed ts s

  close_each-keeps :
      (ts : List T) (t : T) (s : S)
      → law.is_closed t s ≡ true
      → law.is_closed t (close_each manager ts s) ≡ true
  unfolding close_each
  close_each-keeps [] t s h = h
  close_each-keeps (u ∷ ts) t s h = close_each-keeps ts t (manager.close u s) (law.keeps t u s h)

  close_each-AllClosed : (ts : List T) (s : S) → AllClosed ts (close_each manager ts s)
  unfolding close_each
  close_each-AllClosed [] s = tt
  close_each-AllClosed (t ∷ ts) s = (
    close_each-keeps ts t (manager.close t s) (law.closes t s),
    close_each-AllClosed ts (manager.close t s),
  )

  -- After a call that closes all connections each connection that there was is closed.
  pub handle_close_all_connections-closes :
      (s : S) → AllClosed (manager.trackers s) (handle_close_all_connections manager s).0
  unfolding handle_close_all_connections
  handle_close_all_connections-closes s = close_each-AllClosed (manager.trackers s) s

  -- The call for a connection that there is closes it, and says so.
  pub handle_close_connection_lem :
      (id : String) (t : T) (s : S)
      → manager.get id s ≡ some t
      → ((handle_close_connection manager id s).1 ≡ true)
        × (law.is_closed t (handle_close_connection manager id s).0 ≡ true)
  unfolding handle_close_connection close_found
  handle_close_connection_lem id t s e = (
    ap (λ o. (close_found manager o s).1) e,
    ap (λ o. law.is_closed t (close_found manager o s).0) e ∙ law.closes t s,
  )
