-- ===== src/Server/Metrics.antt =====
-- src/metrics.rs: the recorder that is installed once for the process, and what its server gives.
-- The exporter's handle is a type, and building it may fail.
use eventfold_db.Common.{[], ℕ, ◌≡◌, refl, ap, if◌then◌else◌, Bool, List, ◌∷◌, Option, none, some}

pub data Installed (Handle : Type 0) : Type 0 where
  installed : Handle → Installed Handle
  already_installed : Installed Handle
  panicked : Installed Handle

module _ {Handle : Type 0} where
  -- `install_recorder`, over the static `OnceLock`, for what the builder gives.
  unfoldable pub install_recorder : Option Handle → Option Handle → Option Handle × Installed Handle
  install_recorder build (some handle) = (some handle, already_installed)
  install_recorder (some handle) none = (some handle, installed handle)
  install_recorder none none = (none, panicked)

  abbrev pub get_installed_handle : Option Handle → Option Handle
  get_installed_handle recorder_handle = recorder_handle

  -- Once installed, the handle stays, and no later call gives another one.
  pub install_recorder-get_installed_handle :
      (build other recorder_handle : Option Handle) (handle : Handle)
      → install_recorder build recorder_handle ≡ (some handle, installed handle)
      → (get_installed_handle (install_recorder build recorder_handle).0 ≡ some handle)
        × (install_recorder other (install_recorder build recorder_handle).0
            ≡ (some handle, already_installed))
  unfolding install_recorder
  install_recorder-get_installed_handle build other recorder_handle handle h =
      let kept = ap (λ r. r.0) h in rw kept (refl, refl)

abbrev text_plain : List ℕ
text_plain =
    b't' ∷ b'e' ∷ b'x' ∷ b't' ∷ b'/' ∷ b'p' ∷ b'l' ∷ b'a' ∷ b'i' ∷ b'n' ∷ b';' ∷ b' ' ∷ b'v' ∷ b'e'
    ∷ b'r' ∷ b's' ∷ b'i' ∷ b'o' ∷ b'n' ∷ b'=' ∷ b'0' ∷ b'.' ∷ b'0' ∷ b'.' ∷ b'4' ∷ []

-- The one route of the server.
pub record Route : Type 0 where
  pub path : List ℕ
  pub content_type : List ℕ
  pub body : List ℕ

module _ {Handle : Type 0} (render : Handle → List ℕ) where
  abbrev pub metrics_router : Handle → Route
  metrics_router handle = record {
    path = b'/' ∷ b'm' ∷ b'e' ∷ b't' ∷ b'r' ∷ b'i' ∷ b'c' ∷ b's' ∷ [];
    content_type = text_plain;
    body = render handle;
  }

  -- The task of `serve_metrics`: what it serves, unless the address cannot be bound.
  unfoldable pub serve_metrics :
      {SocketAddr : Type 0} → (SocketAddr → Bool) → Handle → SocketAddr → Option Route
  serve_metrics binds handle addr = if binds addr then some (metrics_router handle) else none
