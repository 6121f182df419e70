-- ===== src/Lib.antt =====
-- The client of a voice assistant on a Rockchip RV1106: provisioning over Bluetooth, the sound path,
-- the session with the server, music, and face recognition.
--
-- Parts, and where they are modelled:
--
-- * Provisioning (ble_sdk/btgatt-server.c). The app writes frames to a characteristic; wifi_write_cb
--   appends them to a buffer, wifi_process_frames takes whole frames from it and hands their commands
--   to handle_wifi_cmd, which scans, connects and answers by notifications. Ble/Crc models
--   crc16_xmodem; Ble/Frame models send_wifi_notify_packet (`notify_packet`), wifi_process_frames (one
--   round is `rx_step`, the loop `process_frames`) and wifi_write_cb (`write_cb`); Ble/Json
--   models json_get_string_field, parse_wifi_credential and escape_wpa_str; Ble/Wpa
--   models run_wifi_connect_flow with its probes, and zh_wifi_ensure_connected of
--   src/wifi_bootstrap.c; Ble/WifiList models send_demo_wifi_list; Ble/Server models handle_wifi_cmd,
--   the status notifications and the subscription; Ble/Gatt models the other callbacks; Ble/Serving
--   models the loop of main over the sessions, with the commands as Ble/Server handles them.
--   src/ble_provision.c, which starts this process, is in Device/Provision.
-- * Sound (src/audio_uplink.c, src/audio_capture_rockit.c). The uplink thread reads frames, filters
--   them by a peak gate for the detector, keeps the last ones in a ring, and sends the ring and then
--   every frame while there is speech. Audio/Gate models zh_audio_vad_gate_filter, Audio/Preroll the
--   ring and zh_audio_uplink_flush_preroll, Audio/Uplink one turn of the loop of
--   zh_audio_uplink_thread_main (`turn`), its child Thread the set-up and the end of that
--   thread, Audio/Capture zh_audio_capture_read and its stash, its child Driver the set-up of the
--   microphone, and Audio/Playback src/audio_playback_rockit.c.
-- * Session (src/bithion_core_compat.c, include/ws.h). The state under the mutex of g_ws_session is the
--   record `Session`. Session holds the operations that neither parse nor wait, Session/Messages
--   zh_core_host_ws_text_message, Session/Vision the requests of an image upload and the two waits;
--   Session/Rounds makes all of them steps of one relation. What an operation asks of the other parts
--   is a list of calls. A voice that ends starts the music that was put off (Music). Session/Core
--   models how the closed core is made, configured and handed out, its child Forwards the
--   forwards to it, and its child Cycle any order of these operations.
-- * The voice of the server (src/udp_tts.c). Tts models the globals and the entry points that other
--   threads call, Tts/Thread the playback thread as a step function (`step`). In Tts/Thread/Events
--   the steps of the entry points come in between those of the thread (`happen`, `run`), each store of
--   zh_udp_tts_interrupt and zh_udp_tts_stop by itself. Tts/Wait models the wait for its end.
-- * Music (src/music_player.c). Music/Queue models what the entry points and the thread do to g_music
--   under its mutex; Music/Decoder the buffer and the frames of zh_music_decoder_feed, its
--   child Resample the resampler, its child Sources the playing of a file and of a stream.
-- * Faces (src/face_recognition.c). Face/Cache, Face/Escape and Face/Match model the cache of names,
--   zh_json_escape, the lookup in the index and the choice of the best match; Face/Upload
--   models zh_face_upload_one_frame and zh_http_put_binary; Face/Enroll the two halves of an enrolment
--   and the rewriting of the index; Face/Engine the process of the engine and the dialogue with
--   it, and Face/Workers the two threads and the flags that they run by.
-- * The device. Device/Prompt models src/prompt_tone.c, Device/Clock and Device/Files parts of
--   src/utils.c, Device/Identity src/config.c. App models src/app.c: one session (`run_session`), the
--   loop that reconnects (`app_run`), and the loop before it that provisions (`boot_loop`).
--
-- Prelude holds what all parts share, Text the C strings and the printing of numbers, Tests concrete
-- runs.
--
-- Conventions. Bytes and sizes are numbers of ℕ, samples and signed values are ℤ; wrap-around is
-- written out (`% 2 ^ w`). A C string is the list of its bytes without the NUL. A critical section is
-- one function on the state; what other threads do between two of them is an argument. The closed
-- core library, BlueZ, the Rockchip driver, the JSON reader, the encoder, the detector, files and
-- commands are parameters or inputs: what they answer is given to the model.
--
-- Fuel. `process_frames` takes one round of fuel for each look at the buffer; `write_cb` gives one more
-- than the buffer has bytes, and every round that goes on removes a byte. `grow`, the doubling of the
-- stash, gets the size it is to reach, and a doubling adds at least one. `collect_music_urls` needs one
-- round more than the message has URLs. `sort_aps` has one round for each entry, and printing a
-- number one for each digit. `enlarge`, the doubling of the decode buffer, gets the size it is to reach, and
-- `feed_loop` the bytes in the buffer, of which every round that goes on takes at least one; the same
-- holds of `read_exact`. The other loops are recursive on their data.
--
-- Not modelled: sockets and the registration of the Bluetooth services, the console of the Bluetooth
-- server, the calls that only tune the microphone, the dumps for tests, zh_get_mac_addr and
-- zh_get_build_time, zh_music_play_mp3 and zh_save_photo_jpeg, which nothing calls; the ALSA back
-- ends, which the target does not build; the vendored libraries and the scripts. Of the voice, a second
-- playback thread, which a start after a stop may make beside the first, is not followed.
pub mod Prelude
pub mod Text
pub mod Ble
pub mod Audio
pub mod Session
pub mod Music
pub mod Face
pub mod Tts
pub mod Device
pub mod App
mod Tests
