-- ===== src/Server/Signal.antt =====
-- What src/05_ftp/Run_FtpServer.cpp does at a signal.
use boost_asio.Common.{
  ℕ, suc, zero, ◌≡◌, refl, true, false, Option, some, ◌>>=◌, List, [], ◌∷◌, length, arith,
}
use boost_asio.Wire.Host.{Host}
use boost_asio.Pool.{IoContext, replicate, stop_contexts, stop as stop_pool}
use boost_asio.Pool.Stopping.{join_threads-replicate}
use boost_asio.Server.{Server, new_server}
use boost_asio.Server.Steps.{Reaches, Reaches-IsWorking, new_server-IsWorking}

-- The handler of the signals in `main`: `ioc.stop()`, which ends the accepting, and `pool.Stop()`
unfoldable pub on_signal : Server → Option Server
unfolding stop_pool
on_signal srv = do pool ← stop_pool srv.pool; some (record srv { pool = pool; stopped = true })

stop_contexts-all :
    (n : ℕ) (cs : List IoContext)
    → length cs ≡ n
    → stop_contexts (replicate n true) cs
      ≡ some (replicate n false, replicate n (record { stopped = true }))
unfolding stop_contexts
stop_contexts-all zero [] e = refl
stop_contexts-all zero (c ∷ cs) e = absurd (omega arith)
stop_contexts-all (suc n) [] e = absurd (omega arith)
stop_contexts-all (suc n) (c ∷ cs) e = rw (stop_contexts-all n cs (omega arith)) refl

-- From a new server on, whatever connections are accepted, with errors or not, whatever the sessions read,
-- write and post, whichever sessions end, also before they have been saved, and whenever their last message
-- or write lets them go, so that their destructors stop contexts: the handler of a signal returns, every context is stopped and every thread joined, and the
-- acceptor's context is stopped. No session is stopped: the table and the sockets are as they were.
pub on_signal-Reaches :
    (h : Host) (size id : ℕ) (first srv : Server)
    → new_server h size id ≡ some first
    → Reaches h first srv
    → (srv' : Server) × (on_signal srv ≡ some srv')
      × (srv'.pool.io_services ≡ replicate size (record { stopped = true }))
      × (srv'.pool.joined ≡ replicate size true)
      × (srv'.stopped ≡ true)
      × (srv'.world ≡ srv.world)
      × (srv'.objects ≡ srv.objects)
unfolding on_signal stop_pool
on_signal-Reaches h size id first srv made r =
    let v = Reaches-IsWorking size (new_server-IsWorking size h id first made) r in
    (
      record srv {
        pool = record srv.pool {
          io_services = replicate size (record { stopped = true });
          works = replicate size false;
          joined = replicate size true;
        };
        stopped = true;
      },
      (rw
          (
            v.works_left,
            v.none_joined,
            stop_contexts-all size srv.pool.io_services v.same_size,
            join_threads-replicate size,
          )
          refl),
      refl,
      refl,
      refl,
      refl,
      refl,
    )
