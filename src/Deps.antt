-- ===== src/Deps.antt =====
-- The crates that romio calls (Cargo.toml: mio, mio-uds, slab, futures, parking_lot, libc), as interfaces: their
-- operations are parameters, and the laws are what their documentation says and romio relies on.
-- `Deps` joins them, but for those that few modules use: Locks, Options, Credentials and Executor.
pub mod Ready
pub mod Locks
pub mod Options
pub mod Executor
pub mod Credentials
pub mod Wakers
pub mod Slabs
pub mod Kernel
pub mod Sockets
use Ready.{ReadyApi}
use Wakers.{WakerApi}
use Slabs.{SlabApi}
use Kernel.{KernelApi}
use Sockets.{SocketApi}

pub record Deps : Type 1 where
  pub ready_api : ReadyApi
  pub open ready_api use *
  pub waker_api : WakerApi
  pub open waker_api use *
  pub slab_api : SlabApi
  pub open slab_api use *
  pub kernel_api : KernelApi Ready
  pub open kernel_api use *
  pub socket_api : SocketApi Os Source
  pub open socket_api use *
