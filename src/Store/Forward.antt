-- ===== src/Store/Forward.antt =====
-- The object-safe mirror of `Access` in crates/pegastore/src/access.rs, layers, and the builder
-- forms of put and get in crates/pegastore/src/store.rs.
use pegastore.Prelude.{ℕ, List, Run}
use pegastore.Core.Types.{Key, Retention}
use pegastore.Core.Error.{Result}
use pegastore.Core.Region.{Iov}
use pegastore.Core.Ops.{
  PutSlot, OpPut, RpPut, OpGet, RpGet, new_put, new_get, with_retention, with_src_offset,
}
use pegastore.Store.{Access, put_options, get_options}

-- `impl AccessDyn for T`: boxing a future does not change what it does.
unfoldable pub as_dyn : {W : Type 0} → Access W → Access W
as_dyn access = record {
  info = access.info;
  register = λ ptr len device w. access.register ptr len device w;
  put = λ key op w. access.put key op w;
  publish = λ key op w. access.publish key op w;
  stat = λ keys w. access.stat keys w;
  get = λ key op w. access.get key op w;
  remove = λ keys w. access.remove keys w;
  remove_prefix = λ prefix w. access.remove_prefix prefix w;
}

-- `impl Access for Arc<T>`.
unfoldable pub of_arc : {W : Type 0} → Access W → Access W
of_arc arc = record {
  info = arc.info;
  register = λ ptr len device w. arc.register ptr len device w;
  put = λ key op w. arc.put key op w;
  publish = λ key op w. arc.publish key op w;
  stat = λ keys w. arc.stat keys w;
  get = λ key op w. arc.get key op w;
  remove = λ keys w. arc.remove keys w;
  remove_prefix = λ prefix w. arc.remove_prefix prefix w;
}

-- `Store::new`, `Store::from_servicer` and `Store::layer`: a store is its backend.
unfoldable pub new_store : {W : Type 0} → Access W → Access W
new_store access = as_dyn access

unfoldable pub layer : {W : Type 0} → (Access W → Access W) → Access W → Access W
layer wrap store = wrap store

pub record FuturePut (W : Type 0) : Type 0 where
  pub store : Access W
  pub key : Key
  pub op : OpPut

pub record FutureGet (W : Type 0) : Type 0 where
  pub store : Access W
  pub key : Key
  pub op : OpGet

module _ {W : Type 0} where
  unfoldable pub put_with : Access W → Key → List PutSlot → FuturePut W
  put_with store key slots = record { store = store; key = key; op = new_put slots }

  unfoldable pub retention : FuturePut W → Retention → FuturePut W
  retention f r = record f { op = with_retention f.op r }

  -- `FuturePut::into_future`, awaited.
  unfoldable pub await_put : FuturePut W → W → Run (W × Result RpPut)
  await_put f = put_options f.store f.key f.op

  unfoldable pub get_with : Access W → Key → ℕ → List Iov → FutureGet W
  get_with store key slot dst = record { store = store; key = key; op = new_get slot dst }

  unfoldable pub src_offset : FutureGet W → ℕ → FutureGet W
  src_offset f offset = record f { op = with_src_offset f.op offset }

  -- `FutureGet::into_future`, awaited.
  unfoldable pub await_get : FutureGet W → W → Run (W × Result RpGet)
  await_get f = get_options f.store f.key f.op
