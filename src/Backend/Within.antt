-- ===== src/Backend/Within.antt =====
-- A relation between the state before and the state after, whether the steps return or fail.
use ppgram.Errors.{Error, Result, ok, err}
use ppgram.Backend.{Backend, Exec, continue, handle, handle_with, ◌>>=◌}

abbrev pub Within {ℓ κ} : {A : Type ℓ} → (Backend → Backend → Type κ) → Exec A → Type κ
Within R m = (b : Backend) → R b (m b).1

module _ {ℓ κ μ} {A : Type ℓ} {B : Type κ} (R : Backend → Backend → Type μ)
    (R_trans : (a b c : Backend) → R a b → R b c → R a c) where
  continue-Within :
      (r : Result A × Backend) (f : A → Exec B) (b : Backend)
      → R b r.1
      → ((a : A) → Within R (f a))
      → R b (continue r f).1
  unfolding continue
  continue-Within (ok a, c) f b h k = R_trans b c (f a c).1 h (k a c)
  continue-Within (err e, c) f b h k = h

  pub >>=-Within :
      (m : Exec A) (f : A → Exec B) → Within R m → ((a : A) → Within R (f a)) → Within R (m >>= f)
  unfolding ◌>>=◌
  >>=-Within m f h k b = continue-Within (m b) f b (h b) k

  handle_with-Within :
      (r : Result A × Backend) (on_error : Error → Exec B) (f : A → Exec B) (b : Backend)
      → R b r.1
      → ((e : Error) → Within R (on_error e))
      → ((a : A) → Within R (f a))
      → R b (handle_with r on_error f).1
  unfolding handle_with
  handle_with-Within (ok a, c) on_error f b h j k = R_trans b c (f a c).1 h (k a c)
  handle_with-Within (err e, c) on_error f b h j k = R_trans b c (on_error e c).1 h (j e c)

  pub handle-Within :
      (m : Exec A) (on_error : Error → Exec B) (f : A → Exec B)
      → Within R m
      → ((e : Error) → Within R (on_error e))
      → ((a : A) → Within R (f a))
      → Within R (handle m on_error f)
  unfolding handle
  handle-Within m on_error f h j k b = handle_with-Within (m b) on_error f b (h b) j k
