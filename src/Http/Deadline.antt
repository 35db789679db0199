-- ===== src/Http/Deadline.antt =====
-- The deadline of a connection in src/03_beast-http/RunServer.cpp.
use boost_asio.Common.{◌≡◌, refl, Bool, true, false, not}
use boost_asio.Http.{start_connection, on_written, on_deadline}

-- After the response has been written and the connection has been shut down for sending, the
-- deadline is still awaited and the socket is open, until the deadline expires and closes it; the
-- deadline is cancelled only if the shutdown fails.
pub on_written-waits :
    (shutdown_failed : Bool)
    → ((on_written false shutdown_failed start_connection).deadline_pending ≡ not shutdown_failed)
      × ((on_written false shutdown_failed start_connection).socket_open ≡ true)
      × ((on_deadline false (on_written false false start_connection)).socket_open ≡ false)
unfolding on_written on_deadline start_connection
on_written-waits true = (refl, refl, refl)
on_written-waits false = (refl, refl, refl)
